-- ===== src/Tests/Json.antt =====
-- A JSON library that keeps its laws and prints every value: a value is its text, and an object puts
-- the length in front of each key and each value.
use zapshare.Base.{
  ℕ, zero, suc, ◌≤◌, ◌≡◌, refl, ap, ◌∙◌, Bool, true, false, Bool-cases, inl, inr, Bytes, List, [],
  ◌∷◌, ◌++◌, Option, some, none, Outcome, returned, thrown, aborted, bytes_eq, if◌then◌else◌, arith,
  length, take, drop, length-append, take-append_length, drop-append_length, is_empty,
}
use zapshare.Utils.Libraries.{JsonLib, JsonLaws, lookup, has_key}

abbrev object_text : List (Bytes × Bytes) → Bytes
object_text [] = []
object_text ((k, v) ∷ kvs) = length k ∷ (k ++ (length v ∷ (v ++ object_text kvs)))

-- A text with its length in front, and what is behind it.
abbrev pub entry : Bytes → Bytes × Bytes
entry [] = ([], [])
entry (n ∷ s) = (take n s, drop n s)

unfoldable pub search : ℕ → Bytes → Bytes → Option Bytes
search zero text k = none
search (suc fuel) text k =
    let (key, behind_key) = entry text in
    let (value, behind) = entry behind_key in
    let rest = search fuel behind k in
    if is_empty text then none else if bytes_eq key k then some value else rest

pub entry-front : (s behind : Bytes) → entry (length s ∷ (s ++ behind)) ≡ (s, behind)
entry-front s behind = simp (take-append_length s behind, drop-append_length s behind)

search-object_text :
    (fuel : ℕ) (kvs : List (Bytes × Bytes)) (k : Bytes)
    → length kvs ≤ fuel
    → search fuel (object_text kvs) k ≡ lookup k kvs
unfolding search
search-object_text zero [] k h = refl
search-object_text zero (kv ∷ kvs) k h = absurd (omega (arith, h))
search-object_text (suc fuel) [] k h = refl
search-object_text (suc fuel) ((l, v) ∷ kvs) k h =
    let key = entry-front l (length v ∷ (v ++ object_text kvs)) in
    let value = entry-front v (object_text kvs) in
    let ih = search-object_text fuel kvs k (omega (arith, h)) in
    simp (
      take-append_length l (length v ∷ (v ++ object_text kvs)),
      drop-append_length l (length v ∷ (v ++ object_text kvs)),
      take-append_length v (object_text kvs),
      drop-append_length v (object_text kvs),
      ih,
    )

object_text_size : (kvs : List (Bytes × Bytes)) → length kvs ≤ length (object_text kvs)
object_text_size [] = omega arith
object_text_size ((k, v) ∷ kvs) = omega (
  arith,
  length-append k (length v ∷ (v ++ object_text kvs)),
  length-append v (object_text kvs),
  object_text_size kvs,
)

abbrev found : Option Bytes → Outcome Bytes
found (some v) = returned v
found none = aborted

abbrev is_some : Option Bytes → Bool
is_some (some v) = true
is_some none = false

abbrev number_of : Bytes → Outcome ℕ
number_of [] = thrown
number_of (n ∷ s) = returned n

abbrev bit : Bool → ℕ
bit true = 1
bit false = 0

abbrev pub text_json : JsonLib
text_json = record {
  Json = Bytes;
  string = λ s. s;
  number = λ n. n ∷ [];
  boolean = λ b. bit b ∷ [];
  object = object_text;
  at = λ v k. found (search (length v) v k);
  entry = λ v k. found (search (length v) v k);
  contains = λ v k. is_some (search (length v) v k);
  get_string = returned;
  get_unsigned = number_of;
  dump = returned;
  parse = returned;
}

has_key-lookup : (k : Bytes) (kvs : List (Bytes × Bytes)) → is_some (lookup k kvs) ≡ has_key k kvs
has_key-lookup k [] = refl
has_key-lookup k ((l, v) ∷ kvs) = elim (Bool-cases (bytes_eq l k)) [
  | inl e ↦ simp e
  | inr e ↦ simp e (has_key-lookup k kvs)
]

searched :
    (kvs : List (Bytes × Bytes)) (k : Bytes)
    → search (length (object_text kvs)) (object_text kvs) k ≡ lookup k kvs
searched kvs k = search-object_text (length (object_text kvs)) kvs k (object_text_size kvs)

pub text_json-laws : JsonLaws text_json
text_json-laws = record {
  at-object = λ kvs k v h. ap found (searched kvs k ∙ h);
  entry-object = λ kvs k v h. ap found (searched kvs k ∙ h);
  contains-object = λ kvs k. ap is_some (searched kvs k) ∙ has_key-lookup k kvs;
  get_string-string = λ s. refl;
  get_unsigned-number = λ n h. refl;
  parse-dump = λ v s h. cc;
}

pub text_json-prints : (v : Bytes) → (b : Bytes) × (text_json.dump v ≡ returned b)
text_json-prints v = (v, refl)
