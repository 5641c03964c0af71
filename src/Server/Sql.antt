-- ===== src/Server/Sql.antt =====
-- PostgreSQL behind libpqxx, which central_server/include/database.hpp only calls: one operation for
-- each SQL statement of the source, over a state `Db`, with the statements' documented behaviour as
-- laws. A statement that fails throws.
use zapshare.Base.{
  ℕ, ◌^◌, ◌<◌, ◌≡◌, ◌≢◌, Bool, true, false, Bytes, List, [], ◌∷◌, Option, none, some, Outcome,
  returned,
}

-- `DB::TRANSFERS`, the columns that a registration gives.
pub record TransferPayload : Type 0 where
  pub id : Bytes
  pub sender_ip : Bytes
  pub sender_port : ℕ
  pub protocol : Bytes
  pub file_name : Bytes
  pub file_size : ℕ
  pub file_hash : Bytes
  pub token : Bytes

-- Numbers that fit the columns: INTEGER has 32 bits with a sign, BIGINT 64.
abbrev pub FitsInteger : ℕ → Type 0
FitsInteger n = n < 2 ^ 31

abbrev pub FitsBigint : Option ℕ → Type 0
FitsBigint none = Unit
FitsBigint (some n) = n < 2 ^ 63

-- A row of the table; `none` is NULL, in the columns that may hold it. No number is negative, since
-- what is inserted is unsigned.
pub record SqlRow : Type 0 where
  pub id : Bytes
  pub sender_ip : Bytes
  pub sender_port : ℕ
  pub protocol : Bytes
  pub file_name : Option Bytes
  pub file_size : Option ℕ
  pub file_hash : Option Bytes
  pub token : Bytes
  pub claimed : Option Bool
  pub created_at : Option Bytes
  pub port_fits : FitsInteger sender_port
  pub size_fits : FitsBigint file_size

pub record FitsColumns (p : TransferPayload) : Type 0 where
  pub port : FitsInteger p.sender_port
  pub size : FitsBigint (some p.file_size)

pub record Sql (Db : Type 0) : Type 0 where
  -- BEGIN, which the constructor of a transaction sends
  pub begin : Db → Outcome (Unit {0})
  -- CREATE TABLE IF NOT EXISTS transfers
  pub create_table : Db → Outcome Db
  -- SELECT * FROM transfers WHERE id = $1
  pub select : Bytes → Db → Outcome (List SqlRow)
  -- UPDATE transfers SET claimed = true WHERE id = $1
  pub set_claimed : Bytes → Db → Outcome Db
  -- INSERT INTO transfers ... ON CONFLICT (id) DO UPDATE SET ..., the keys not named kept
  pub upsert : TransferPayload → Db → Outcome Db

-- What an INSERT or an UPDATE of the named columns makes of what the table had under the id; a new
-- row has the columns' defaults, FALSE and the current time.
abbrev pub merged : Bytes → Option SqlRow → (p : TransferPayload) → FitsColumns p → SqlRow
merged now old p fits = record {
  id = p.id;
  sender_ip = p.sender_ip;
  sender_port = p.sender_port;
  protocol = p.protocol;
  file_name = some p.file_name;
  file_size = some p.file_size;
  file_hash = some p.file_hash;
  token = p.token;
  claimed = elim old [ none ↦ some false | some row ↦ row.claimed ];
  created_at = elim old [ none ↦ some now | some row ↦ row.created_at ];
  port_fits = fits.port;
  size_fits = fits.size;
}

abbrev pub rows_of : Option SqlRow → List SqlRow
rows_of none = []
rows_of (some row) = row ∷ []

abbrev pub claim_row : Option SqlRow → Option SqlRow
claim_row none = none
claim_row (some row) = some (record row { claimed = some true })

-- What a statement that succeeds has done: `find` is the content, by the primary key. A number that a
-- column cannot hold is refused.
pub record SqlLaws {Db : Type 0} (s : Sql Db) : Type 0 where
  pub find : Db → Bytes → Option SqlRow
  pub now : Db → Bytes
  pub select-rows :
      (k : Bytes) (d : Db) (rows : List SqlRow)
      → s.select k d ≡ returned rows
      → rows ≡ rows_of (find d k)
  pub claim :
      (k : Bytes) (d d' : Db)
      → s.set_claimed k d ≡ returned d'
      → (find d' k ≡ claim_row (find d k)) × ((l : Bytes) → l ≢ k → find d' l ≡ find d l)
  pub fits : (p : TransferPayload) (d d' : Db) → s.upsert p d ≡ returned d' → FitsColumns p
  pub store :
      (p : TransferPayload) (d d' : Db) (e : s.upsert p d ≡ returned d')
      → (find d' p.id ≡ some (merged (now d) (find d p.id) p (fits p d d' e)))
        × ((l : Bytes) → l ≢ p.id → find d' l ≡ find d l)

-- The connection holds, so that for one id no BEGIN, SELECT or UPDATE fails. Nothing is said of an
-- INSERT.
pub record SqlAnswers {Db : Type 0} (s : Sql Db) (k : Bytes) : Type 0 where
  pub begins : (d : Db) → s.begin d ≡ returned tt
  pub selects : (d : Db) → (rows : List SqlRow) × (s.select k d ≡ returned rows)
  pub claims : (d : Db) → (d' : Db) × (s.set_claimed k d ≡ returned d')
