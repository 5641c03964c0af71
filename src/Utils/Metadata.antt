-- ===== src/Utils/Metadata.antt =====
-- transfer_metadata_from_json, register_transfer, look_up and get_transfer_metadata of
-- cli_tool/include/utils.hpp. An exception of the JSON library propagates; `DEFAULT_PORT` and the
-- request paths are the source's.
pub mod Addresses
pub mod Fields
use zapshare.Base.{
  ℕ, ◌+◌, ◌%◌, ◌^◌, Bool, false, Bytes, codes, [], ◌∷◌, ◌++◌, Option, none, some, Outcome, returned,
  thrown, and_then, bytes_eq, is_empty, if◌then◌else◌, take, drop, List,
}
use zapshare.Config.{Transfers}
use zapshare.Utils.Text.{find, to_string, stoi_to_u32}
use zapshare.Utils.Libraries.{JsonLib, Http, Reply}

abbrev pub default_port : ℕ
default_port = 5173

-- The `;` and `:` of the packed address `public;local:port`.
abbrev pub semicolon : ℕ
semicolon = b';'

abbrev pub colon : ℕ
colon = b':'

-- What the unpacking writes: sender_ip, sender_local_ip, sender_local_port.
pub record Address : Type 0 where
  pub sender_ip : Bytes
  pub sender_local_ip : Bytes
  pub sender_local_port : ℕ

pub unpack_local : Bytes → Bytes → Option ℕ → Outcome Address
unpack_local ip local_part (some i) = and_then (stoi_to_u32 (drop (i + 1) local_part)) λ port.
    returned
      (record { sender_ip = ip; sender_local_ip = take i local_part; sender_local_port = port })
unpack_local ip local_part none =
    returned
      (record { sender_ip = ip; sender_local_ip = local_part; sender_local_port = default_port })

pub unpack_at : Bytes → Option ℕ → Outcome Address
unfolding unpack_local
unpack_at raw_ip (some semi) =
    let local_part = drop (semi + 1) raw_ip in
    unpack_local (take semi raw_ip) local_part (find colon local_part)
unpack_at raw_ip none =
    returned (record { sender_ip = raw_ip; sender_local_ip = []; sender_local_port = 0 })

pub unpack : Bytes → Outcome Address
unfolding unpack_at
unpack raw_ip = unpack_at raw_ip (find semicolon raw_ip)

-- `packed_ip` of register_transfer.
pub pack : Transfers → Bytes
pack t =
    if is_empty t.sender_local_ip
    then t.sender_ip
    else (t.sender_ip
        ++ (codes ";" ++ (t.sender_local_ip ++ (codes ":" ++ to_string t.sender_local_port))))

module _ (j : JsonLib) where
  open j use {
    Json, string, number, object, at, entry, contains, get_string, get_unsigned, dump, parse,
  }

  unfoldable pub string_at : Json → Bytes → Outcome Bytes
  string_at v key = and_then (at v key) get_string

  -- A number read into an unsigned field of so many values is cut to it.
  pub unsigned_at : ℕ → Json → Bytes → Outcome ℕ
  unsigned_at modulus v key =
      and_then (at v key) λ field. and_then (get_unsigned field) λ n. returned (n % modulus)

  -- The same reads through the `operator[]` of a value that is not const.
  unfoldable pub string_entry : Json → Bytes → Outcome Bytes
  string_entry v key = and_then (entry v key) get_string

  unfoldable pub unsigned_entry : ℕ → Json → Bytes → Outcome ℕ
  unsigned_entry modulus v key =
      and_then (entry v key) λ field. and_then (get_unsigned field) λ n. returned (n % modulus)

  -- The two fields that a server may have, read if the packed address held no local part.
  pub fallback : Json → Address → Outcome Address
  unfolding string_at unsigned_at
  fallback v a =
      if is_empty a.sender_local_ip
      then (and_then
          (if contains v (codes "sender_local_ip")
            then string_at v (codes "sender_local_ip")
            else returned [])
          λ ip.
            and_then
              (if contains v (codes "sender_local_port")
                then unsigned_at (2 ^ 32) v (codes "sender_local_port")
                else returned 0)
              λ port. returned (record a { sender_local_ip = ip; sender_local_port = port }))
      else returned a

  unfoldable pub transfer_metadata_from_json : Json → Outcome Transfers
  unfolding string_at unsigned_at unpack fallback
  transfer_metadata_from_json v = and_then (string_at v (codes "id")) λ id.
      and_then (string_at v (codes "sender_ip")) λ raw_ip. and_then (unpack raw_ip) λ unpacked.
        and_then (unsigned_at (2 ^ 32) v (codes "sender_port")) λ sender_port.
          and_then (fallback v unpacked) λ a. and_then (string_at v (codes "protocol")) λ protocol.
            and_then (string_at v (codes "file_name")) λ file_name.
              and_then (unsigned_at (2 ^ 64) v (codes "file_size")) λ file_size.
                and_then (string_at v (codes "file_hash")) λ file_hash.
                  and_then (string_at v (codes "token")) λ token. returned (record {
                    id = id;
                    sender_ip = a.sender_ip;
                    sender_port = sender_port;
                    sender_local_ip = a.sender_local_ip;
                    sender_local_port = a.sender_local_port;
                    protocol = protocol;
                    file_name = file_name;
                    file_size = file_size;
                    file_hash = file_hash;
                    token = token;
                  })

  -- `payload` of register_transfer.
  unfoldable pub registration : Transfers → List (Bytes × Json)
  registration t =
      (codes "id", string t.id)
      ∷ (codes "sender_ip", string (pack t))
      ∷ (codes "sender_port", number t.sender_port)
      ∷ (codes "sender_local_ip", string t.sender_local_ip)
      ∷ (codes "sender_local_port", number t.sender_local_port)
      ∷ (codes "protocol", string t.protocol)
      ∷ (codes "file_name", string t.file_name)
      ∷ (codes "file_size", number t.file_size)
      ∷ (codes "file_hash", string t.file_hash)
      ∷ (codes "token", string t.token)
      ∷ []

  module _ {World : Type 0} (http : Http World) where
    -- The reply to the POST is not looked at.
    unfoldable pub register_transfer : Transfers → World → Outcome World
    unfolding registration
    register_transfer t w =
        and_then (dump (object (registration t)))
          λ body. returned (http.http_post (codes "/register") body w).1

    abbrev lookup_reply : Option Reply → Bool
    lookup_reply (some reply) = bytes_eq reply.body (codes "True")
    lookup_reply none = false

    unfoldable pub look_up : Bytes → World → Bool × World
    look_up secret w =
        let (reply, w') = http.http_get (codes "/lookup/" ++ secret) w in (lookup_reply reply, w')

    unfoldable pub metadata_reply : Option Reply → Outcome Transfers
    unfolding transfer_metadata_from_json
    metadata_reply (some reply) = and_then (parse reply.body) transfer_metadata_from_json
    metadata_reply none = thrown

    -- The world is passed on also where the call throws: `validate_token` catches.
    unfoldable pub get_transfer_metadata : Bytes → World → Outcome Transfers × World
    unfolding metadata_reply
    get_transfer_metadata secret w =
        let (reply, w') = http.http_get (codes "/getfile/" ++ secret) w in
        (metadata_reply reply, w')
