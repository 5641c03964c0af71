-- ===== src/Server/Routes/Registration.antt =====
-- A transfer on its way through the central server: register_transfer, look_up and
-- get_transfer_metadata of cli_tool/include/utils.hpp against the routes of central_server/main.cpp.
use zapshare.Base.{
  ◌^◌, ◌<◌, ap, Outcome, Bool, Option, ◌≡◌, refl, true, Bytes, codes, [], ◌++◌, none, some,
  returned, bytes_eq,
}
use zapshare.Config.{Transfers}
use zapshare.Server.Database.{to_transfer_row, or_else}
use zapshare.Server.Handlers.{Shared}
use zapshare.Server.Handlers.Registered.{post_register_lem, get_lookup_lem, get_getfile_lem}
use zapshare.Server.Routes.{
  behind_prefix, is_secret, capture, get_route, post_route, answered, central_server,
}
use zapshare.Server.Rows.{transfer_row_to_json}
use zapshare.Server.Rows.RoundTrip.{
  IsRegistrable, payload_of, row_of, transfer_row_from_json-registration,
  transfer_metadata_from_json-row,
}
use zapshare.Server.Sql.{Sql, SqlLaws, SqlAnswers, SqlRow, merged}
use zapshare.Utils.Libraries.{JsonLib, JsonLaws, Http}
use zapshare.Utils.Metadata.{
  registration, register_transfer, look_up, get_transfer_metadata, metadata_reply,
}

capture_lookup :
    (id : Bytes)
    → is_secret id ≡ true
    → capture (codes "/lookup/") (codes "/lookup/" ++ id) ≡ some id
unfolding capture behind_prefix
capture_lookup id h = simp h

pub capture_getfile :
    (id : Bytes)
    → is_secret id ≡ true
    → (capture (codes "/lookup/") (codes "/getfile/" ++ id) ≡ none)
      × (capture (codes "/getfile/") (codes "/getfile/" ++ id) ≡ some id)
unfolding capture behind_prefix
capture_getfile id h = (refl, simp h)

capture_register :
    (capture (codes "/signal/") (codes "/register") ≡ none)
    × (behind_prefix (codes "/register") (codes "/register") ≡ some [])
unfolding capture behind_prefix
capture_register = (refl, refl)

module _ {Db : Type 0} (sql : Sql Db) (tables : SqlLaws sql) (j : JsonLib) (laws : JsonLaws j)
    (what : Bytes) (t : Transfers) (h : IsRegistrable t) (d d1 : Db)
    (stored : sql.upsert (payload_of t) d ≡ returned d1) where
  abbrev server : Http (Shared sql j)
  server = central_server sql j what

  -- What the table has under the id.
  abbrev pub row : SqlRow
  row =
      merged (tables.now d) (tables.find d t.id) (payload_of t)
        (tables.fits (payload_of t) d d1 stored)

  pub found : tables.find d1 t.id ≡ some row
  found = (tables.store (payload_of t) d d1 stored).0

  pub register_lem :
      (body : Bytes) (s : Shared sql j)
      → j.dump (j.object (registration j t)) ≡ returned body
      → s.connection ≡ some d
      → sql.begin d ≡ returned tt
      → register_transfer j server t s ≡ returned (record s { connection = some d1 })
  unfolding register_transfer central_server post_route
  register_lem body s printed connected begun =
      let v = j.object (registration j t) in
      simp (
        printed,
        capture_register.0,
        capture_register.1,
        post_register_lem sql tables j body v (payload_of t) s d d1 (laws.parse-dump v body printed)
            (transfer_row_from_json-registration j laws t h) connected begun stored,
      )

  module _ (fits : is_secret t.id ≡ true) (answers : SqlAnswers sql t.id) where
    look_up_lem : (s : Shared sql j) → s.connection ≡ some d1 → look_up j server t.id s ≡ (true, s)
    unfolding look_up central_server get_route answered bytes_eq
    look_up_lem s connected = simp (
      capture_lookup t.id fits,
      get_lookup_lem sql tables j t.id answers row s d1 connected found,
    )

    -- From any table that has the registered row, claimed or not.
    pub get_transfer_metadata_lem :
        (printed : Bytes) (s : Shared sql j) (d' : Db) (c : Option Bool)
        → j.dump (transfer_row_to_json j (row_of (payload_of t) true (or_else [] row.created_at)))
          ≡ returned printed
        → s.connection ≡ some d'
        → tables.find d' t.id ≡ some (record row { claimed = c })
        → get_transfer_metadata j server t.id s
          ≡ (returned t, record s { connection = some (answers.claims d').0 })
    unfolding get_transfer_metadata metadata_reply central_server get_route answered to_transfer_row
    get_transfer_metadata_lem printed s d' c e connected there =
        let created = or_else [] row.created_at in
        let v = transfer_row_to_json j (row_of (payload_of t) true created) in
        simp (
          (capture_getfile t.id fits).0,
          (capture_getfile t.id fits).1,
          get_getfile_lem sql tables j t.id answers printed (record row { claimed = c }) s d'
              connected there e,
          laws.parse-dump v printed e,
          transfer_metadata_from_json-row j laws t true created h,
        )

    -- A transfer with a packable address and an id that the routes take reaches the receiver through
    -- the central server's table, whatever the table held before. If the registration's JSON
    -- prints, its BEGIN succeeds and its INSERT changes the table `d` to `d1`, then register_transfer
    -- returns and leaves the server's connection at `d1`, although the end of register_transfers is
    -- undefined. A server `s'` that is connected to `d1`, where the row's JSON prints and the
    -- statements about the id succeed, answers look_up with true and get_transfer_metadata with the
    -- same transfer. The port is then below 2 ^ 31, the bound of the column.
    pub get_transfer_metadata-register_transfer :
        (body printed : Bytes) (s s' : Shared sql j)
        → j.dump (j.object (registration j t)) ≡ returned body
        → j.dump (transfer_row_to_json j (row_of (payload_of t) true (or_else [] row.created_at)))
          ≡ returned printed
        → s.connection ≡ some d
        → sql.begin d ≡ returned tt
        → s'.connection ≡ some d1
        → (register_transfer j server t s ≡ returned (record s { connection = some d1 }))
          × (look_up j server t.id s' ≡ (true, s'))
          × ((get_transfer_metadata j server t.id s').0 ≡ returned t)
          × (t.sender_port < 2 ^ 31)
    get_transfer_metadata-register_transfer body printed s s' e f connected begun connected' = (
      register_lem body s e connected begun,
      look_up_lem s' connected',
      ap (λ (r : Outcome Transfers × Shared sql j). r.0)
          (get_transfer_metadata_lem printed s' d1 row.claimed f connected' found),
      (tables.fits (payload_of t) d d1 stored).port,
    )
