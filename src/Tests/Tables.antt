-- ===== src/Tests/Tables.antt =====
-- A database that keeps the laws of the SQL statements: the rows by their ids.
use zapshare.Base.{
  ◌^◌, ◌≡◌, ◌≢◌, refl, sym, subst, Bool, true, false, ◌&&◌, ltb, Bytes, codes, List, Option, some,
  none, Outcome, returned, thrown, arith,
}
use zapshare.Server.Handlers.{assign}
use zapshare.Server.Handlers.Signals.{lookup-assign, lookup-assign_other}
use zapshare.Server.Sql.{
  TransferPayload, FitsColumns, SqlRow, Sql, SqlLaws, SqlAnswers, merged, rows_of, claim_row,
}
use zapshare.Utils.Libraries.{lookup}

abbrev pub Rows : Type 0
Rows = List (Bytes × SqlRow)

abbrev store_row : Bytes → Option SqlRow → Rows → Rows
store_row k none d = d
store_row k (some row) d = assign k row d

abbrev time : Bytes
time = codes "2025-01-01 00:00:00"

-- Whether the numbers fit their columns.
abbrev pub numbers_fit : TransferPayload → Bool
numbers_fit p = ltb p.sender_port (2 ^ 31) && ltb p.file_size (2 ^ 63)

pub numbers_fit-FitsColumns : (p : TransferPayload) → numbers_fit p ≡ true → FitsColumns p
numbers_fit-FitsColumns p h = record { port = ground (arith, h); size = ground (arith, h) }

abbrev pub stored : (p : TransferPayload) → FitsColumns p → Rows → Rows
stored p fits d = assign p.id (merged time (lookup p.id d) p fits) d

-- With the answer whether the numbers fit.
abbrev insert : (p : TransferPayload) → Rows → (b : Bool) → numbers_fit p ≡ b → Outcome Rows
insert p d true e = returned (stored p (numbers_fit-FitsColumns p e) d)
insert p d false e = thrown

abbrev pub row_sql : Sql Rows
row_sql = record {
  begin = λ d. returned tt;
  create_table = returned;
  select = λ k d. returned (rows_of (lookup k d));
  set_claimed = λ k d. returned (store_row k (claim_row (lookup k d)) d);
  upsert = λ p d. insert p d (numbers_fit p) refl;
}

same_returned : {A : Type 0} {a b : A} → ◌≡◌ {A = Outcome A} (returned a) (returned b) → a ≡ b
same_returned e = cc

inserted :
    (p : TransferPayload) (d d' : Rows) (b : Bool) (same : numbers_fit p ≡ b)
    → insert p d b same ≡ returned d'
    → (fits : FitsColumns p) × (stored p fits d ≡ d')
inserted p d d' true same e = (numbers_fit-FitsColumns p same, same_returned e)
inserted p d d' false same e = absurd (cc)

inserted_at :
    (p : TransferPayload) (d d' : Rows)
    → row_sql.upsert p d ≡ returned d'
    → (fits : FitsColumns p) × (stored p fits d ≡ d')
inserted_at p d d' e = inserted p d d' (numbers_fit p) refl e

claimed_lem :
    (k : Bytes) (d : Rows) (old : Option SqlRow)
    → lookup k d ≡ old
    → (lookup k (store_row k (claim_row old) d) ≡ claim_row old)
      × ((l : Bytes) → l ≢ k → lookup l (store_row k (claim_row old) d) ≡ lookup l d)
claimed_lem k d none h = (h, λ l ne. refl)
claimed_lem k d (some row) h = (lookup-assign k _ d, λ l ne. lookup-assign_other k l _ d ne)

pub row_sql-laws : SqlLaws row_sql
row_sql-laws = record {
  find = λ d k. lookup k d;
  now = λ d. time;
  select-rows = λ k d rows e. sym (same_returned e);
  claim = λ k d d' e.
      subst
        (λ x.
          (lookup k x ≡ claim_row (lookup k d)) × ((l : Bytes) → l ≢ k → lookup l x ≡ lookup l d))
        (same_returned e) (claimed_lem k d (lookup k d) refl);
  fits = λ p d d' e. (inserted_at p d d' e).0;
  store = λ p d d' e.
      subst
        (λ x.
          (lookup p.id x ≡ some (merged time (lookup p.id d) p (inserted_at p d d' e).0))
          × ((l : Bytes) → l ≢ p.id → lookup l x ≡ lookup l d))
        (inserted_at p d d' e).1
        (lookup-assign p.id _ d, λ l ne. lookup-assign_other p.id l _ d ne);
}

pub row_sql-answers : (k : Bytes) → SqlAnswers row_sql k
row_sql-answers k = record { begins = λ d. refl; selects = λ d. (_, refl); claims = λ d. (_, refl) }

pub row_sql-find : (d : Rows) (k : Bytes) → row_sql-laws.find d k ≡ lookup k d
unfolding row_sql-laws
row_sql-find d k = refl
