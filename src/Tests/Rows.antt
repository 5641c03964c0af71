-- ===== src/Tests/Rows.antt =====
-- A JSON library that keeps its laws on the objects that the program builds, and a transfer on its
-- way through the central server. An object is its test for a key and its values; nothing is printed.
use zapshare.Base.{
  ℕ, ◌≡◌, refl, Bool, true, false, Bool-cases, inl, inr, Bytes, codes, List, [], ◌∷◌, Option, some,
  Outcome, returned, thrown, aborted, bytes_eq, if◌then◌else◌, arith,
}
use zapshare.Config.{Transfers}
use zapshare.Server.Rows.{transfer_row_from_json, transfer_row_to_json}
use zapshare.Server.Rows.RoundTrip.{IsRegistrable, row_of, transfer_metadata_from_json-registration}
use zapshare.Server.Sql.{TransferPayload}
use zapshare.Utils.Libraries.{JsonLib, JsonLaws, lookup, has_key}
use zapshare.Utils.Metadata.{registration, transfer_metadata_from_json}
use zapshare.Utils.Text.{find}

data ToyJson : Type 0 where
  text : Bytes → ToyJson
  whole : ℕ → ToyJson
  flag : Bool → ToyJson
  fields : (Bytes → Bool) → (Bytes → ToyJson) → ToyJson

abbrev value_of : List (Bytes × ToyJson) → Bytes → ToyJson
value_of [] k = whole 0
value_of ((l, v) ∷ kvs) k = if bytes_eq l k then v else value_of kvs k

abbrev toy_at : ToyJson → Bytes → Outcome ToyJson
toy_at (fields has value) k = if has k then returned (value k) else aborted
toy_at (text s) k = thrown
toy_at (whole n) k = thrown
toy_at (flag b) k = thrown

abbrev toy_contains : ToyJson → Bytes → Bool
toy_contains (fields has value) k = has k
toy_contains (text s) k = false
toy_contains (whole n) k = false
toy_contains (flag b) k = false

abbrev toy_string : ToyJson → Outcome Bytes
toy_string (text s) = returned s
toy_string (whole n) = thrown
toy_string (flag b) = thrown
toy_string (fields has value) = thrown

abbrev toy_unsigned : ToyJson → Outcome ℕ
toy_unsigned (whole n) = returned n
toy_unsigned (text s) = thrown
toy_unsigned (flag b) = thrown
toy_unsigned (fields has value) = thrown

abbrev toy_json : JsonLib
toy_json = record {
  Json = ToyJson;
  string = text;
  number = whole;
  boolean = flag;
  object = λ kvs. fields (λ k. has_key k kvs) (value_of kvs);
  at = toy_at;
  entry = toy_at;
  contains = toy_contains;
  get_string = toy_string;
  get_unsigned = toy_unsigned;
  dump = λ v. thrown;
  parse = λ s. thrown;
}

at_found :
    (kvs : List (Bytes × ToyJson)) (k : Bytes) (v : ToyJson)
    → lookup k kvs ≡ some v
    → toy_at (fields (λ k. has_key k kvs) (value_of kvs)) k ≡ returned v
at_found [] k v h = absurd (cc)
at_found ((l, u) ∷ kvs) k v h = elim (Bool-cases (bytes_eq l k)) [
  | inl e ↦ simp e (same_value u v (simp e at h))
  | inr e ↦ simp e (at_found kvs k v (simp e at h))
]
  where
    same_value :
        (u v : ToyJson)
        → ◌≡◌ {A = Option ToyJson} (some u) (some v)
        → ◌≡◌ {A = Outcome ToyJson} (returned u) (returned v)
    same_value u v e = cc

toy_json-laws : JsonLaws toy_json
toy_json-laws = record {
  at-object = at_found;
  entry-object = at_found;
  contains-object = λ kvs k. refl;
  get_string-string = λ s. refl;
  get_unsigned-number = λ n h. refl;
  parse-dump = λ v s h. absurd (cc);
}

abbrev pub registered : Transfers
registered = record {
  id = codes "b6d1";
  sender_ip = codes "198.51.100.7";
  sender_port = 40123;
  sender_local_ip = codes "192.168.1.20";
  sender_local_port = 5173;
  protocol = codes "UDP";
  file_name = codes "note.txt";
  file_size = 12;
  file_hash = codes "c0ffee";
  token = codes "b6d1";
}

pub registered-IsRegistrable : IsRegistrable registered
unfolding find
registered-IsRegistrable = record {
  packable = record {
    no_semicolon = refl;
    no_colon = refl;
    port_fits = omega arith;
    no_lone_port = λ e. absurd (cc);
  };
  port_fits = omega arith;
  size_fits = omega arith;
}

transfer_metadata_from_json-registration_example :
    (payload : TransferPayload) × (transfer_row_from_json toy_json
        (toy_json.object (registration toy_json registered))
      ≡ returned payload)
    × (transfer_metadata_from_json toy_json
          (transfer_row_to_json toy_json (row_of payload true (codes "2025-01-01")))
        ≡ returned registered)
transfer_metadata_from_json-registration_example =
    transfer_metadata_from_json-registration toy_json toy_json-laws registered true
      (codes "2025-01-01") registered-IsRegistrable
