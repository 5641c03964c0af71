-- ===== src/Utils/Metadata/Addresses.antt =====
-- The packed address of a transfer, `public;local:port`: pack and unpack together.
use zapshare.Base.{
  ℕ, suc, ◌+◌, ◌≤◌, ◌≡◌, refl, sym, ap, ◌∙◌, true, Bytes, [], ◌∷◌, ◌++◌, none, Outcome, returned,
  length, drop, is_empty, Bool-cases, inl, inr, arith, take-append_length,
}
use zapshare.Config.{Transfers}
use zapshare.Utils.Metadata.{Address, pack, unpack, unpack_at, unpack_local, semicolon, colon}
use zapshare.Utils.Text.{find, to_string, stoi_to_u32, max_int}
use zapshare.Utils.Text.RoundTrip.{find-append, stoi_to_u32-to_string}

-- What the packed address can carry.
pub record IsPackable (t : Transfers) : Type 0 where
  pub no_semicolon : find semicolon t.sender_ip ≡ none
  pub no_colon : find colon t.sender_local_ip ≡ none
  pub port_fits : t.sender_local_port ≤ max_int
  -- without a local address its port is not sent
  pub no_lone_port : is_empty t.sender_local_ip ≡ true → t.sender_local_port ≡ 0

abbrev pub address_of : Transfers → Address
address_of t = record {
  sender_ip = t.sender_ip;
  sender_local_ip = t.sender_local_ip;
  sender_local_port = t.sender_local_port;
}

drop-suc :
    (front behind : Bytes) (c : ℕ) → drop (suc (length front)) (front ++ (c ∷ behind)) ≡ behind
drop-suc [] behind c = refl
drop-suc (b ∷ front) behind c = drop-suc front behind c

drop-behind :
    (front behind : Bytes) (c : ℕ) → drop (length front + 1) (front ++ (c ∷ behind)) ≡ behind
drop-behind front behind c =
    let e : length front + 1 ≡ suc (length front) = omega arith in
    ap (λ k. drop k (front ++ (c ∷ behind))) e ∙ drop-suc front behind c

unpack_at-found :
    (front behind : Bytes)
    → find semicolon front ≡ none
    → unpack (front ++ (semicolon ∷ behind)) ≡ unpack_local front behind (find colon behind)
unfolding unpack unpack_at
unpack_at-found front behind h = simp (
  find-append semicolon front behind h,
  drop-behind front behind semicolon,
  take-append_length front (semicolon ∷ behind),
)

unpack_local-found :
    (ip front behind : Bytes) (port : ℕ)
    → find colon front ≡ none
    → stoi_to_u32 behind ≡ returned port
    → unpack_local ip (front ++ (colon ∷ behind)) (find colon (front ++ (colon ∷ behind)))
      ≡ returned (record { sender_ip = ip; sender_local_ip = front; sender_local_port = port })
unfolding unpack_local
unpack_local-found ip front behind port h e = simp (
  find-append colon front behind h,
  drop-behind front behind colon,
  take-append_length front (colon ∷ behind),
  e,
)

is_empty-eq_true : (s : Bytes) → is_empty s ≡ true → s ≡ []
is_empty-eq_true [] e = refl
is_empty-eq_true (b ∷ s) e = absurd (cc)

unpack_plain :
    (ip : Bytes)
    → find semicolon ip ≡ none
    → unpack ip ≡ returned (record { sender_ip = ip; sender_local_ip = []; sender_local_port = 0 })
unfolding unpack unpack_at
unpack_plain ip h = simp h

address_eq :
    (ip l l' : Bytes) (p p' : ℕ)
    → l ≡ l'
    → p ≡ p'
    → ◌≡◌ {A = Outcome Address}
        (returned (record { sender_ip = ip; sender_local_ip = l; sender_local_port = p }))
        (returned (record { sender_ip = ip; sender_local_ip = l'; sender_local_port = p' }))
address_eq ip l l' p p' e f = rw (e, f)

pub unpack-pack : (t : Transfers) → IsPackable t → unpack (pack t) ≡ returned (address_of t)
unfolding pack
unpack-pack t h = elim (Bool-cases (is_empty t.sender_local_ip)) [
  | inl e ↦ simp e (
      unpack_plain t.sender_ip h.no_semicolon
      ∙ address_eq t.sender_ip _ _ _ _ (sym (is_empty-eq_true t.sender_local_ip e))
          (sym (h.no_lone_port e)))
  | inr e ↦ simp e (
      unpack_at-found t.sender_ip _ h.no_semicolon
      ∙ unpack_local-found t.sender_ip t.sender_local_ip (to_string t.sender_local_port)
          t.sender_local_port h.no_colon (stoi_to_u32-to_string t.sender_local_port h.port_fits))
]
