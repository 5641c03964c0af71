-- ===== src/Server/Rows.antt =====
-- The rows of the transfers table in central_server/include/database.hpp and their JSON. A `long` of
-- the table is a number, since what is stored comes from a `size_t`; it is printed as it is.
pub mod RoundTrip
use zapshare.Base.{ℕ, ◌^◌, Bool, Bytes, codes, List, [], ◌∷◌, Outcome, returned, and_then}
use zapshare.Server.Sql.{TransferPayload}
use zapshare.Utils.Libraries.{JsonLib}
use zapshare.Utils.Metadata.{string_at, unsigned_at}

pub record TransferRow : Type 0 where
  pub id : Bytes
  pub sender_ip : Bytes
  pub sender_port : ℕ
  pub protocol : Bytes
  pub file_name : Bytes
  pub file_size : ℕ
  pub file_hash : Bytes
  pub token : Bytes
  pub claimed : Bool
  pub created_at : Bytes

module _ (j : JsonLib) where
  open j use {Json, string, number, boolean, object}

  abbrev pub row_fields : TransferRow → List (Bytes × Json)
  row_fields t =
      (codes "id", string t.id)
      ∷ (codes "sender_ip", string t.sender_ip)
      ∷ (codes "sender_port", number t.sender_port)
      ∷ (codes "protocol", string t.protocol)
      ∷ (codes "file_name", string t.file_name)
      ∷ (codes "file_size", number t.file_size)
      ∷ (codes "file_hash", string t.file_hash)
      ∷ (codes "token", string t.token)
      ∷ (codes "claimed", boolean t.claimed)
      ∷ (codes "created_at", string t.created_at)
      ∷ []

  unfoldable pub transfer_row_to_json : TransferRow → Json
  transfer_row_to_json t = object (row_fields t)

  -- An exception is caught, printed and thrown again as another one.
  unfoldable pub transfer_row_from_json : Json → Outcome TransferPayload
  transfer_row_from_json data' = and_then (string_at j data' (codes "id")) λ id.
      and_then (string_at j data' (codes "sender_ip")) λ sender_ip.
        and_then (unsigned_at j (2 ^ 32) data' (codes "sender_port")) λ sender_port.
          and_then (string_at j data' (codes "protocol")) λ protocol.
            and_then (string_at j data' (codes "file_name")) λ file_name.
              and_then (unsigned_at j (2 ^ 64) data' (codes "file_size")) λ file_size.
                and_then (string_at j data' (codes "file_hash")) λ file_hash.
                  and_then (string_at j data' (codes "token")) λ token. returned (record {
                    id = id;
                    sender_ip = sender_ip;
                    sender_port = sender_port;
                    protocol = protocol;
                    file_name = file_name;
                    file_size = file_size;
                    file_hash = file_hash;
                    token = token;
                  })
