-- ===== src/Utils/Text/RoundTrip.antt =====
-- Reading back what `to_string` prints, and cutting a text at a separator.
use zapshare.Base.{
  ℕ, zero, suc, ◌+◌, ◌/◌, ◌%◌, ◌^◌, ◌<◌, ◌≤◌, ◌≡◌, refl, ap, ◌==◌, true, Bytes, [], ◌∷◌, ◌++◌,
  Option, some, none, returned, length, Bool-cases, inl, inr, arith,
}
use zapshare.Utils.Text.{
  emit, scan, starts_with_digit, to_string, stoi_to_u32, skip_spaces, signed, magnitude, max_int,
  find, shift,
}

-- Scanning the digits of `n` from zero gives `n`, whatever stood behind them.
scan-emit : (fuel n : ℕ) (out : Bytes) → n < 10 ^ fuel → scan (emit fuel n out) 0 ≡ scan out n
unfolding scan emit
scan-emit zero n out h = let e : n ≡ 0 = omega arith in rw e
scan-emit (suc fuel) n out h = ground (arith, scan-emit fuel (n / 10) ((b'0' + n % 10) ∷ out))

emit-starts_with_digit :
    (fuel n : ℕ) (out : Bytes)
    → starts_with_digit out ≡ true
    → starts_with_digit (emit fuel n out) ≡ true
unfolding emit
emit-starts_with_digit zero n out h = h
emit-starts_with_digit (suc fuel) n out h =
    ground (arith, emit-starts_with_digit fuel (n / 10) ((b'0' + n % 10) ∷ out), h)

to_string-starts_with_digit : (n : ℕ) → starts_with_digit (to_string n) ≡ true
unfolding to_string emit
to_string-starts_with_digit n =
    ground (arith, emit-starts_with_digit 19 (n / 10) ((b'0' + n % 10) ∷ []))

-- A text that begins with a digit has neither spaces nor a sign to skip.
stoi_to_u32-digits :
    (s : Bytes) (n : ℕ)
    → starts_with_digit s ≡ true
    → scan s 0 ≡ n
    → n ≤ max_int
    → stoi_to_u32 s ≡ returned n
unfolding stoi_to_u32 skip_spaces signed magnitude
stoi_to_u32-digits [] n h e small = absurd (cc)
stoi_to_u32-digits (c ∷ s) n h e small = ground (arith, h, e, small)

pub stoi_to_u32-to_string : (n : ℕ) → n ≤ max_int → stoi_to_u32 (to_string n) ≡ returned n
unfolding to_string scan
stoi_to_u32-to_string n small =
    stoi_to_u32-digits (to_string n) n (to_string-starts_with_digit n)
      (scan-emit 20 n [] (omega (arith, small))) small

shift-eq_none : (o : Option ℕ) → shift o ≡ none → o ≡ none
shift-eq_none none e = refl
shift-eq_none (some i) e = cc

-- The first `c` stands where the text in front has none.
pub find-append :
    (c : ℕ) (front behind : Bytes)
    → find c front ≡ none
    → find c (front ++ (c ∷ behind)) ≡ some (length front)
unfolding find
find-append c [] behind h = ground arith
find-append c (b ∷ front) behind h = elim (Bool-cases (b == c)) [
  | inl e ↦ let found : ◌≡◌ {A = Option ℕ} (some 0) none = simp e at h in absurd (cc)
  | inr e ↦ simp e (ap shift (find-append c front behind (shift-eq_none _ (simp e at h))))
]
