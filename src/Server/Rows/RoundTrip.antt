-- ===== src/Server/Rows/RoundTrip.antt =====
-- A transfer on its way: registered by the sender, kept in the central server's table, and looked up
-- by the receiver.
use zapshare.Base.{◌^◌, ◌<◌, ◌≡◌, refl, Bool, Bytes, codes, returned, bytes_eq, arith}
use zapshare.Config.{Transfers}
use zapshare.Server.Rows.{TransferRow, row_fields, transfer_row_to_json, transfer_row_from_json}
use zapshare.Server.Sql.{TransferPayload}
use zapshare.Utils.Libraries.{JsonLib, JsonLaws}
use zapshare.Utils.Metadata.{pack, registration, transfer_metadata_from_json}
use zapshare.Utils.Metadata.Addresses.{IsPackable, address_of, unpack-pack}
use zapshare.Utils.Metadata.Fields.{string_at-object, unsigned_at-object, fallback-object}

-- What the sender registers has a packable address, and its numbers fit their
-- fields: 32 bits for the port, and 63 for the size. That the port's column has only 31 is for the
-- INSERT to refuse.
pub record IsRegistrable (t : Transfers) : Type 0 where
  pub packable : IsPackable t
  pub port_fits : t.sender_port < 2 ^ 32
  pub size_fits : t.file_size < 2 ^ 63

-- What the server reads in a registration.
abbrev pub payload_of : Transfers → TransferPayload
payload_of t = record {
  id = t.id;
  sender_ip = pack t;
  sender_port = t.sender_port;
  protocol = t.protocol;
  file_name = t.file_name;
  file_size = t.file_size;
  file_hash = t.file_hash;
  token = t.token;
}

-- The row of a stored payload.
abbrev pub row_of : TransferPayload → Bool → Bytes → TransferRow
row_of p claimed created_at = record {
  id = p.id;
  sender_ip = p.sender_ip;
  sender_port = p.sender_port;
  protocol = p.protocol;
  file_name = p.file_name;
  file_size = p.file_size;
  file_hash = p.file_hash;
  token = p.token;
  claimed = claimed;
  created_at = created_at;
}

module _ (j : JsonLib) (laws : JsonLaws j) where
  pub transfer_row_from_json-registration :
      (t : Transfers)
      → IsRegistrable t
      → transfer_row_from_json j (j.object (registration j t)) ≡ returned (payload_of t)
  unfolding transfer_row_from_json registration bytes_eq
  transfer_row_from_json-registration t h =
      let kvs = registration j t in
      simp (
        string_at-object j laws kvs (codes "id") t.id refl,
        string_at-object j laws kvs (codes "sender_ip") (pack t) refl,
        unsigned_at-object j laws (2 ^ 32) kvs (codes "sender_port") t.sender_port refl h.port_fits
            (omega arith),
        string_at-object j laws kvs (codes "protocol") t.protocol refl,
        string_at-object j laws kvs (codes "file_name") t.file_name refl,
        unsigned_at-object j laws (2 ^ 64) kvs (codes "file_size") t.file_size refl
            (omega (arith, h.size_fits)) (omega arith),
        string_at-object j laws kvs (codes "file_hash") t.file_hash refl,
        string_at-object j laws kvs (codes "token") t.token refl,
      )

  pub transfer_metadata_from_json-row :
      (t : Transfers) (claimed : Bool) (created_at : Bytes)
      → IsRegistrable t
      → transfer_metadata_from_json j
          (transfer_row_to_json j (row_of (payload_of t) claimed created_at))
        ≡ returned t
  unfolding transfer_metadata_from_json transfer_row_to_json bytes_eq
  transfer_metadata_from_json-row t claimed created_at h =
      let kvs = row_fields j (row_of (payload_of t) claimed created_at) in
      simp (
        string_at-object j laws kvs (codes "id") t.id refl,
        string_at-object j laws kvs (codes "sender_ip") (pack t) refl,
        unpack-pack t h.packable,
        unsigned_at-object j laws (2 ^ 32) kvs (codes "sender_port") t.sender_port refl h.port_fits
            (omega arith),
        fallback-object j laws kvs (address_of t) refl refl h.packable.no_lone_port,
        string_at-object j laws kvs (codes "protocol") t.protocol refl,
        string_at-object j laws kvs (codes "file_name") t.file_name refl,
        unsigned_at-object j laws (2 ^ 64) kvs (codes "file_size") t.file_size refl
            (omega (arith, h.size_fits)) (omega arith),
        string_at-object j laws kvs (codes "file_hash") t.file_hash refl,
        string_at-object j laws kvs (codes "token") t.token refl,
      )

  -- What a sender registers, with a packable address, a port below 2 ^ 32 and a size below 2 ^ 63, the
  -- central server reads without an error, and whatever claimed and created_at its row has by then,
  -- the receiver reads exactly the sender's transfer out of the row's JSON.
  pub transfer_metadata_from_json-registration :
      (t : Transfers) (claimed : Bool) (created_at : Bytes)
      → IsRegistrable t
      → (payload : TransferPayload) × (transfer_row_from_json j (j.object (registration j t))
          ≡ returned payload)
        × (transfer_metadata_from_json j
              (transfer_row_to_json j (row_of payload claimed created_at))
            ≡ returned t)
  transfer_metadata_from_json-registration t claimed created_at h = (
    payload_of t,
    transfer_row_from_json-registration t h,
    transfer_metadata_from_json-row t claimed created_at h,
  )
