-- ===== src/Server/Database.antt =====
-- central_server/include/database.hpp: the connection and the queries. `none` is the null connection.
-- A call gives how it ended and the connection after it: what a statement changed stays changed if a
-- later one throws. A message of an exception and prints are left out.
pub mod Atomic
use zapshare.Base.{
  Bool, true, false, not, Bytes, List, [], ◌∷◌, Option, none, some, Outcome, returned, thrown,
  aborted, and_then,
}
use zapshare.Server.Rows.{TransferRow, transfer_row_from_json}
use zapshare.Server.Sql.{SqlRow, Sql}
use zapshare.Utils.Libraries.{JsonLib}

-- `get_env`: the variable's value, or an exception.
unfoldable pub get_env : Option Bytes → Outcome Bytes
get_env none = thrown
get_env (some value) = returned value

abbrev pub or_else {ℓ} : {A : Type ℓ} → A → Option A → A
or_else a none = a
or_else a (some b) = b

-- NULL gives the type's default.
unfoldable pub to_transfer_row : SqlRow → TransferRow
to_transfer_row row = record {
  id = row.id;
  sender_ip = row.sender_ip;
  sender_port = row.sender_port;
  protocol = row.protocol;
  file_name = or_else [] row.file_name;
  file_size = or_else 0 row.file_size;
  file_hash = or_else [] row.file_hash;
  token = row.token;
  claimed = or_else false row.claimed;
  created_at = or_else [] row.created_at;
}

abbrev pub is_empty_result : List SqlRow → Bool
is_empty_result [] = true
is_empty_result (row ∷ rows) = false

-- `r[0]`: without a row it is undefined, and the model stops.
abbrev pub first_row : List SqlRow → Outcome SqlRow
first_row [] = aborted
first_row (row ∷ rows) = returned row

module _ {Db : Type 0} (sql : Sql Db) where
  open sql use {begin, create_table, select, set_claimed, upsert}

  -- `connect` is the constructor of pqxx::connection with `is_open`.
  unfoldable pub init : (Bytes → Outcome (Bool × Db)) → Option Bytes → Outcome (Option Db)
  unfolding get_env
  init connect url = and_then (get_env url) λ u.
      and_then (connect u)
        λ (is_open, d). elim (not is_open) [ true ↦ thrown | false ↦ returned (some d) ]

  unfoldable pub conn : Option Db → Outcome Db
  conn none = thrown
  conn (some d) = returned d

  -- The constructor of a transaction: the connection, and a BEGIN that may fail.
  abbrev pub begun : Option Db → Outcome Db
  unfolding conn
  begun c = and_then (conn c) λ d. and_then (begin d) λ _. returned d

  unfoldable pub create_transfers_table : Option Db → Outcome (Option Db)
  unfolding conn
  create_transfers_table c =
      and_then (begun c) λ d. and_then (create_table d) λ d'. returned (some d')

  unfoldable pub create_tables : Option Db → Outcome (Option Db)
  unfolding create_transfers_table
  create_tables c = create_transfers_table c

  abbrev caught_select : Outcome (List SqlRow) → Outcome Bool
  caught_select (returned rows) = returned (not (is_empty_result rows))
  caught_select thrown = returned false
  caught_select aborted = aborted

  -- The transaction begins outside the `try`, so that a BEGIN that fails throws.
  unfoldable pub lookup_transfer : Bytes → Option Db → Outcome Bool
  unfolding conn
  lookup_transfer secret c = and_then (begun c) λ d. caught_select (select secret d)

  -- The connection after a statement: as before where it threw.
  abbrev pub after : Option Db → Outcome Db → Outcome (Unit {0}) × Option Db
  after c (returned d) = (returned tt, some d)
  after c thrown = (thrown, c)
  after c aborted = (aborted, c)

  unfoldable pub mark_transfer_claimed : Bytes → Option Db → Outcome (Unit {0}) × Option Db
  unfolding conn
  mark_transfer_claimed secret c = after c (and_then (begun c) (set_claimed secret))

  -- Behind the SELECT: the row is claimed first and read then.
  abbrev pub claimed_row : List SqlRow → Outcome (Unit {0}) → Outcome TransferRow
  claimed_row rows marked = and_then marked λ _.
      and_then (first_row rows) λ row. returned (record (to_transfer_row row) { claimed = true })

  abbrev pub claim_selected :
      Bytes → Option Db → Outcome (List SqlRow) → Outcome TransferRow × Option Db
  claim_selected secret c (returned rows) =
      let (marked, c') = mark_transfer_claimed secret c in (claimed_row rows marked, c')
  claim_selected secret c thrown = (thrown, c)
  claim_selected secret c aborted = (aborted, c)

  unfoldable pub get_transfers_metadata : Bytes → Option Db → Outcome TransferRow × Option Db
  unfolding conn mark_transfer_claimed to_transfer_row
  get_transfers_metadata secret c = claim_selected secret c (and_then (begun c) (select secret))

  -- The end of a function that is declared to return a `bool`, without a `return`: undefined, and
  -- the model stops.
  abbrev pub no_return : Outcome (Unit {0}) × Option Db → Outcome (Unit {0}) × Option Db
  no_return (returned _, c) = (aborted, c)
  no_return (thrown, c) = (thrown, c)
  no_return (aborted, c) = (aborted, c)

  -- What is committed stays committed, although the end behind it is undefined.
  unfoldable pub register_transfers :
      (j : JsonLib) → j.Json → Option Db → Outcome (Unit {0}) × Option Db
  unfolding conn
  register_transfers j data' c = no_return (
      after c (
        and_then (begun c)
          λ d. and_then (transfer_row_from_json j data') λ payload. upsert payload d))
