-- ===== src/Tests/World.antt =====
-- A platform to run on: one file, a central server that always answers, libraries of the simplest
-- kind, and SHA-256 replaced by the text itself.
use zapshare.Base.{
  false, Bytes, codes, [], ◌∷◌, ◌++◌, some, returned, replicate, append_assoc, append-nil,
}
use zapshare.Config.{Transfers, Endpoint}
use zapshare.Crypto.Libsodium.{Sodium}
use zapshare.FileHash.{Sha256, Sha256Laws}
use zapshare.Platform.{Platform}
use zapshare.Utils.Libraries.{JsonLib, Http}
use zapshare.Tests.Wire.{wire}

abbrev pub quiet_sodium : Sodium (Unit {0})
quiet_sodium = record {
  sign_public_key_bytes = 1;
  sign_secret_key_bytes = 1;
  sign_bytes = 1;
  kx_public_key_bytes = 1;
  kx_secret_key_bytes = 1;
  aead_key_bytes = 1;
  aead_nonce_bytes = 1;
  aead_tag_bytes = 1;
  init_failed = false;
  sign_keypair = λ w. (0, 5 ∷ [], 5 ∷ [], w);
  kx_keypair = λ w. (0, 6 ∷ [], 6 ∷ [], w);
  randombytes_buf = λ n w. (replicate n 9, w);
  sign_detached = λ m k. (0, 7 ∷ []);
  sign_verify_detached = λ s m p. 0;
  kx_client_session_keys = λ p k q. (0, 1 ∷ [], 2 ∷ []);
  kx_server_session_keys = λ p k q. (0, 2 ∷ [], 1 ∷ []);
  aead_encrypt = λ m ad n k. (0, m);
  aead_decrypt = λ m ad n k. (0, m);
}

-- Every field of every object is the text that was parsed, or the number 7.
abbrev pub plain_json : JsonLib
plain_json = record {
  Json = Bytes;
  string = λ s. s;
  number = λ n. n ∷ [];
  boolean = λ b. [];
  object = λ kvs. [];
  at = λ j k. returned j;
  entry = λ j k. returned j;
  contains = λ j k. false;
  get_string = λ j. returned j;
  get_unsigned = λ j. returned 7;
  dump = λ j. returned j;
  parse = λ s. returned s;
}

abbrev answering_http : Http (Unit {0})
answering_http = record {
  http_get = λ path w. (some (record { status = 200; body = codes "abc" }), w);
  http_post = λ path body w. (some (record { status = 201; body = [] }), w);
}

abbrev pub file_bytes : Bytes
file_bytes = codes "hello, world"

abbrev pub platform : Platform
platform = record {
  World = Unit {0};
  sodium = quiet_sodium;
  http = answering_http;
  json = plain_json;
  codec = wire;
  read_file = λ path w. some file_bytes;
}

-- The "hash" of a text is the text.
abbrev pub sha : Sha256
sha = record { Context = Bytes; init = []; update = ◌++◌; final = λ s. s }

pub sha-laws : Sha256Laws sha
sha-laws = record { update-nil = append-nil; update-append = append_assoc }

abbrev pub sender : Endpoint
sender = record { address = codes "10.0.0.2"; port = 5173 }

abbrev pub receiver : Endpoint
receiver = record { address = codes "10.0.0.7"; port = 40000 }

-- What `plain_json` makes of the body "abc" of the central server's answers.
abbrev pub plain_metadata : Transfers
plain_metadata = record {
  id = codes "abc";
  sender_ip = codes "abc";
  sender_port = 7;
  sender_local_ip = [];
  sender_local_port = 0;
  protocol = codes "abc";
  file_name = codes "abc";
  file_size = 7;
  file_hash = codes "abc";
  token = codes "abc";
}
