-- ===== src/Server/Handlers/Signals.antt =====
-- The signal store of central_server/main.cpp: what a POST leaves, a GET finds.
use zapshare.Base.{
  ◌≡◌, ◌≢◌, ap, Bytes, List, [], ◌∷◌, some, returned, bytes_eq, bytes_eq_refl, bytes_eq_sound,
  bytes_eq_ne, Bool-cases, inl, inr, ◌∙◌, sym,
}
use zapshare.Server.Handlers.{
  fresh, content, with_status, assign, Shared, Handled, post_signal, get_signal,
}
use zapshare.Server.Sql.{Sql}
use zapshare.Utils.Libraries.{JsonLib, lookup}

pub lookup-assign {ℓ} :
    {A : Type ℓ} (k : Bytes) (a : A) (kvs : List (Bytes × A)) → lookup k (assign k a kvs) ≡ some a
unfolding assign
lookup-assign k a [] = simp (bytes_eq_refl k)
lookup-assign k a ((l, b) ∷ kvs) = elim (Bool-cases (bytes_eq l k)) [
  | inl e ↦ simp e
  | inr e ↦ simp e (lookup-assign k a kvs)
]

pub lookup-assign_other {ℓ} :
    {A : Type ℓ} (k l : Bytes) (a : A) (kvs : List (Bytes × A))
    → l ≢ k
    → lookup l (assign k a kvs) ≡ lookup l kvs
unfolding assign
lookup-assign_other k l a [] h = simp (bytes_eq_ne k l (λ e. h (sym e)))
lookup-assign_other k l a ((m, b) ∷ kvs) h = elim (Bool-cases (bytes_eq m k)) [
  | inl e ↦ simp (e, bytes_eq_ne m l (λ f. h (sym f ∙ bytes_eq_sound m k e)))
  | inr e ↦ simp (e, lookup-assign_other k l a kvs h)
]

module _ {Db : Type 0} (sql : Sql Db) (j : JsonLib) where
  pub post_signal_lem :
      (id body printed : Bytes) (v : j.Json) (s : Shared sql j)
      → j.parse body ≡ returned v
      → j.dump v ≡ returned printed
      → post_signal sql j id body s
        ≡ (returned (with_status 200 fresh), record s { signal_store = assign id v s.signal_store })
  unfolding post_signal
  post_signal_lem id body printed v s e f = simp (e, f)

  pub get_signal_lem :
      (id printed : Bytes) (v : j.Json) (s : Shared sql j)
      → lookup id s.signal_store ≡ some v
      → j.dump v ≡ returned printed
      → get_signal sql j id s ≡ (returned (content printed fresh), s)
  unfolding get_signal
  get_signal_lem id printed v s e f = simp (e, f)

  -- A signal that parses and prints is accepted with status 200; from then on a GET for its id
  -- answers with the printed signal, and a GET for any other id answers as before.
  pub get_signal-post_signal :
      (id body printed : Bytes) (v : j.Json) (s : Shared sql j)
      → j.parse body ≡ returned v
      → j.dump v ≡ returned printed
      → ((post_signal sql j id body s).0 ≡ returned (with_status 200 fresh))
        × ((get_signal sql j id (post_signal sql j id body s).1).0
            ≡ returned (content printed fresh))
        × ((other : Bytes)
            → other ≢ id
            → (get_signal sql j other (post_signal sql j id body s).1).0
              ≡ (get_signal sql j other s).0)
  unfolding get_signal
  get_signal-post_signal id body printed v s e f =
      let posted = post_signal_lem id body printed v s e f in
      (
        ap (λ (r : Handled sql j). r.0) posted,
        ap (λ (r : Handled sql j). (get_signal sql j id r.1).0) posted
            ∙ ap (λ (r : Handled sql j). r.0)
                (get_signal_lem id printed v
                  (record s { signal_store = assign id v s.signal_store })
                  (lookup-assign id v s.signal_store) f),
        λ other h. simp (posted, lookup-assign_other id other v s.signal_store h),
      )
