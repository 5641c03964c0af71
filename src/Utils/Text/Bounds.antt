-- ===== src/Utils/Text/Bounds.antt =====
-- What std::stoi and its conversion to uint32_t give stays within 32 bits.
use zapshare.Base.{
  ℕ, ◌+◌, ◌≤◌, ◌<◌, ◌^◌, Bytes, [], ◌∷◌, Bool-cases, inl, inr, returned, thrown, aborted, Outcome,
  Yields, ltb, ◌==◌, arith,
}
use zapshare.Utils.Text.{
  magnitude, scan, signed, skip_spaces, stoi_to_u32, max_int, starts_with_digit, map_outcome,
  negate_32,
}

abbrev pub FitsWord : ℕ → Type 0
FitsWord n = n < 2 ^ 32

magnitude-le : (bound : ℕ) (s : Bytes) → Yields (λ n. n ≤ bound) (magnitude bound s)
unfolding magnitude
magnitude-le bound s = elim (Bool-cases (starts_with_digit s)) [
  | inl e ↦ elim (Bool-cases (ltb bound (scan s 0))) [
    | inl big ↦ simp (e, big) tt
    | inr fits ↦ simp (e, fits) (ground (arith, fits))
  ]
  | inr e ↦ simp e tt
]

within : (m : Outcome ℕ) → Yields (λ n. n ≤ max_int) m → Yields FitsWord m
within (returned n) h = omega (arith, h)
within thrown h = tt
within aborted h = tt

negated : (m : Outcome ℕ) → Yields FitsWord (map_outcome negate_32 m)
negated (returned n) = omega arith
negated thrown = tt
negated aborted = tt

signed-FitsWord : (s : Bytes) → Yields FitsWord (signed s)
unfolding signed
signed-FitsWord [] = tt
signed-FitsWord (c ∷ s) = elim (Bool-cases (c == b'-')) [
  | inl e ↦ simp e (negated (magnitude (max_int + 1) s))
  | inr e ↦ elim (Bool-cases (c == b'+')) [
    | inl f ↦ simp (e, f) (within (magnitude max_int s) (magnitude-le max_int s))
    | inr f ↦ simp (e, f) (within (magnitude max_int (c ∷ s)) (magnitude-le max_int (c ∷ s)))
  ]
]

pub stoi_to_u32-FitsWord : (s : Bytes) → Yields FitsWord (stoi_to_u32 s)
unfolding stoi_to_u32
stoi_to_u32-FitsWord s = signed-FitsWord (skip_spaces s)
