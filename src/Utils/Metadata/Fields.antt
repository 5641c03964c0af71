-- ===== src/Utils/Metadata/Fields.antt =====
-- Reading the fields of a JSON object that the program built: under the laws of the JSON library.
use zapshare.Base.{
  ℕ, ◌<◌, ◌≤◌, ◌^◌, ◌≡◌, ap, Bool-cases, inl, inr, is_empty, codes, true, false, Bytes, List, [],
  ◌∷◌, some, Outcome, returned, arith,
}
use native.Mathlib.Nat.{mod-eq_of_lt}
use zapshare.Utils.Libraries.{JsonLib, JsonLaws, lookup, has_key}
use zapshare.Utils.Metadata.{
  Address, fallback, string_at, unsigned_at, string_entry, unsigned_entry,
}

module _ (j : JsonLib) (laws : JsonLaws j) where
  pub string_at-object :
      (kvs : List (Bytes × j.Json)) (k s : Bytes)
      → lookup k kvs ≡ some (j.string s)
      → string_at j (j.object kvs) k ≡ returned s
  unfolding string_at
  string_at-object kvs k s h = simp (laws.at-object kvs k (j.string s) h, laws.get_string-string s)

  pub unsigned_at-object :
      (modulus : ℕ) (kvs : List (Bytes × j.Json)) (k : Bytes) (n : ℕ)
      → lookup k kvs ≡ some (j.number n)
      → n < modulus
      → modulus ≤ 2 ^ 64
      → unsigned_at j modulus (j.object kvs) k ≡ returned n
  unfolding unsigned_at
  unsigned_at-object modulus kvs k n h fits small =
      simp
        (
          laws.at-object kvs k (j.number n) h,
          laws.get_unsigned-number n (omega (arith, fits, small)),
        )
        (ap returned (mod-eq_of_lt fits))

  pub string_entry-object :
      (kvs : List (Bytes × j.Json)) (k s : Bytes)
      → lookup k kvs ≡ some (j.string s)
      → string_entry j (j.object kvs) k ≡ returned s
  unfolding string_entry
  string_entry-object kvs k s h =
      simp (laws.entry-object kvs k (j.string s) h, laws.get_string-string s)

  pub unsigned_entry-object :
      (modulus : ℕ) (kvs : List (Bytes × j.Json)) (k : Bytes) (n : ℕ)
      → lookup k kvs ≡ some (j.number n)
      → n < modulus
      → modulus ≤ 2 ^ 64
      → unsigned_entry j modulus (j.object kvs) k ≡ returned n
  unfolding unsigned_entry
  unsigned_entry-object modulus kvs k n h fits small =
      simp
        (
          laws.entry-object kvs k (j.number n) h,
          laws.get_unsigned-number n (omega (arith, fits, small)),
        )
        (ap returned (mod-eq_of_lt fits))

  -- Behind an unpacked local address nothing is read; without one, in an object that lacks the two
  -- fields, both are empty.
  pub fallback-object :
      (kvs : List (Bytes × j.Json)) (a : Address)
      → has_key (codes "sender_local_ip") kvs ≡ false
      → has_key (codes "sender_local_port") kvs ≡ false
      → (is_empty a.sender_local_ip ≡ true → a.sender_local_port ≡ 0)
      → fallback j (j.object kvs) a ≡ returned a
  unfolding fallback
  fallback-object kvs a no_ip no_port no_lone_port =
      elim (Bool-cases (is_empty a.sender_local_ip)) [
        | inl e ↦
            simp
              (
                e,
                laws.contains-object kvs (codes "sender_local_ip"),
                laws.contains-object kvs (codes "sender_local_port"),
                no_ip,
                no_port,
              )
              (bare a.sender_ip a.sender_local_ip a.sender_local_port e (no_lone_port e))
        | inr e ↦ simp e
      ]
    where
      bare :
          (ip l : Bytes) (p : ℕ)
          → is_empty l ≡ true
          → p ≡ 0
          → ◌≡◌ {A = Outcome Address}
              (returned (record { sender_ip = ip; sender_local_ip = []; sender_local_port = 0 }))
              (returned (record { sender_ip = ip; sender_local_ip = l; sender_local_port = p }))
      bare ip [] p e f = rw f
      bare ip (b ∷ l) p e f = absurd (cc)
