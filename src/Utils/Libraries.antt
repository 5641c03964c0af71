-- ===== src/Utils/Libraries.antt =====
-- The vendored libraries that utils.hpp calls, as interfaces: nlohmann::json and httplib.
use zapshare.Base.{
  ℕ, ◌<◌, ◌^◌, Bool, true, false, Bytes, List, [], ◌∷◌, ◌≡◌, Option, none, some, Outcome, returned,
  bytes_eq, if◌then◌else◌,
}

-- `at` is the const `operator[]`. `entry` is `operator[]` on a value that is not const, which gives
-- null for a missing key (and puts it in, which nothing looks at afterwards). `object` is the
-- initialiser list of key and value pairs.
pub record JsonLib : Type 1 where
  pub Json : Type 0
  pub string : Bytes → Json
  pub number : ℕ → Json
  pub boolean : Bool → Json
  pub object : List (Bytes × Json) → Json
  pub at : Json → Bytes → Outcome Json
  pub entry : Json → Bytes → Outcome Json
  pub contains : Json → Bytes → Bool
  pub get_string : Json → Outcome Bytes
  pub get_unsigned : Json → Outcome ℕ
  pub dump : Json → Outcome Bytes
  pub parse : Bytes → Outcome Json

-- The value that a list of pairs gives to a key.
abbrev pub lookup {ℓ} : {A : Type ℓ} → Bytes → List (Bytes × A) → Option A
lookup k [] = none
lookup k ((j, v) ∷ kvs) = if bytes_eq j k then some v else lookup k kvs

abbrev pub has_key {ℓ} : {A : Type ℓ} → Bytes → List (Bytes × A) → Bool
has_key k [] = false
has_key k ((j, v) ∷ kvs) = if bytes_eq j k then true else has_key k kvs

-- The documented behaviour on what the program itself builds.
pub record JsonLaws (j : JsonLib) : Type 0 where
  pub at-object :
      (kvs : List (Bytes × j.Json)) (k : Bytes) (v : j.Json)
      → lookup k kvs ≡ some v
      → j.at (j.object kvs) k ≡ returned v
  pub entry-object :
      (kvs : List (Bytes × j.Json)) (k : Bytes) (v : j.Json)
      → lookup k kvs ≡ some v
      → j.entry (j.object kvs) k ≡ returned v
  pub contains-object :
      (kvs : List (Bytes × j.Json)) (k : Bytes) → j.contains (j.object kvs) k ≡ has_key k kvs
  pub get_string-string : (s : Bytes) → j.get_string (j.string s) ≡ returned s
  pub get_unsigned-number : (n : ℕ) → n < 2 ^ 64 → j.get_unsigned (j.number n) ≡ returned n
  pub parse-dump : (v : j.Json) (s : Bytes) → j.dump v ≡ returned s → j.parse s ≡ returned v

-- An HTTP reply: the status and the body.
pub record Reply : Type 0 where
  pub status : ℕ
  pub body : Bytes

-- httplib::Client on the central server's URL: path of the request, and for a POST its body. `none`
-- is a result that tests false, as when there is no connection.
pub record Http (World : Type 0) : Type 0 where
  pub http_get : Bytes → World → Option Reply × World
  pub http_post : Bytes → Bytes → World → Option Reply × World
