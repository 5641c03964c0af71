-- ===== src/Server/Database/Atomic.antt =====
-- What register_transfers of central_server/include/database.hpp leaves, however its statements end.
use zapshare.Base.{◌≡◌, ◌≢◌, Bytes, Option, some, Outcome, returned, aborted}
use zapshare.Server.Rows.{transfer_row_from_json}
use zapshare.Server.Sql.{TransferPayload, FitsColumns, Sql, SqlLaws, merged}
use zapshare.Utils.Libraries.{JsonLib}

module _ {Db : Type 0} (sql : Sql Db) (laws : SqlLaws sql) (j : JsonLib) (v : j.Json) (d : Db) where
  open laws use {find, now, store, fits}

  -- One row is new: that of the payload, whose numbers fit. The call has no defined end.
  pub record HasStored (r : Outcome (Unit {0}) × Option Db) : Type 0 where
    pub payload : TransferPayload
    pub table : Db
    pub parsed : transfer_row_from_json j v ≡ returned payload
    pub in_range : FitsColumns payload
    pub ended : r ≡ (aborted, some table)
    pub there : find table payload.id ≡ some (merged (now d) (find d payload.id) payload in_range)
    pub others : (l : Bytes) → l ≢ payload.id → find table l ≡ find d l
