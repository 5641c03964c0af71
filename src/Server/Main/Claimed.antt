-- ===== src/Server/Main/Claimed.antt =====
-- That a transfer is claimed, in the table of central_server/include/database.hpp, while requests to
-- central_server/main.cpp are answered.
use zapshare.Base.{
  bytes-cases, ◌≡◌, ◌⊎◌, refl, sym, ap, ◌∙◌, true, inl, inr, Bytes, codes, List, ◌∷◌, ◌++◌, Option,
  some, returned,
}
use zapshare.Server.Database.{conn, mark_transfer_claimed, get_transfers_metadata}
use zapshare.Server.Handlers.{Shared, get_getfile}
use zapshare.Server.Handlers.Registered.{selected}
use zapshare.Server.Main.{HttpRequest, get, serve, serve_request}
use zapshare.Server.Main.Keeps.{Keeps, Spares-all, serve_first-keeps, table-Keeps}
use zapshare.Server.Printed.{LoggedRequest}
use zapshare.Server.Routes.{central_server, get_route, is_secret}
use zapshare.Server.Routes.Registration.{capture_getfile}
use zapshare.Server.Sql.{TransferPayload, SqlRow, Sql, SqlLaws, SqlAnswers, merged, claim_row}
use zapshare.Utils.Libraries.{JsonLib}

module _ {Db : Type 0} (sql : Sql Db) (laws : SqlLaws sql) (j : JsonLib) (k : Bytes) where
  open laws use {find, now, claim, store}

  -- The table has a row under `k` whose column `claimed` is true.
  pub record HasClaim (d : Db) : Type 0 where
    pub row : SqlRow
    pub there : find d k ≡ some row
    pub claimed : row.claimed ≡ some true

  abbrev pub IsClaimed : Option Db → Type 0
  IsClaimed c = (d : Db) × (c ≡ some d) × HasClaim d

  claim-HasClaim :
      (secret : Bytes) (d d' : Db) (row : SqlRow)
      → sql.set_claimed secret d ≡ returned d'
      → find d k ≡ some row
      → (row.claimed ≡ some true) ⊎ (secret ≡ k)
      → HasClaim d'
  claim-HasClaim secret d d' row e there why = elim (bytes-cases k secret) [
    | inl same ↦ record {
      row = record row { claimed = some true };
      there =
          ap (find d') same
          ∙ ((claim secret d d' e).0 ∙ ap claim_row (ap (find d) (sym same) ∙ there));
      claimed = refl;
    }
    | inr other ↦ elim why [
      | inl claimed ↦ record {
        row = row;
        there = (claim secret d d' e).1 k other ∙ there;
        claimed = claimed;
      }
      | inr same ↦ absurd (other (sym same))
    ]
  ]

  store-HasClaim :
      (p : TransferPayload) (d d' : Db) → sql.upsert p d ≡ returned d' → HasClaim d → HasClaim d'
  store-HasClaim p d d' e h = elim (bytes-cases k p.id) [
    | inl same ↦ record {
      row = merged (now d) (some h.row) p (laws.fits p d d' e);
      there =
          ap (find d') same
          ∙ ((store p d d' e).0
              ∙ ap (λ old. some (merged (now d) old p (laws.fits p d d' e)))
                  (ap (find d) (sym same) ∙ h.there));
      claimed = h.claimed;
    }
    | inr other ↦ record {
      row = h.row;
      there = (store p d d' e).1 k other ∙ h.there;
      claimed = h.claimed;
    }
  ]

  IsClaimed-Keeps : Keeps sql j IsClaimed (λ v. Unit {0})
  IsClaimed-Keeps =
      table-Keeps sql j HasClaim (λ v. Unit {0})
        (λ secret d d' e h. claim-HasClaim secret d d' h.row e h.there (inl h.claimed))
        (λ v payload d d' fits parsed e h. store-HasClaim payload d d' e h)

  module _ (answers : SqlAnswers sql k) where
    open answers use {begins, claims}

    -- A fetch claims the row.
    get_getfile-IsClaimed :
        (s : Shared sql j) (d : Db) (row : SqlRow)
        → s.connection ≡ some d
        → find d k ≡ some row
        → IsClaimed (get_getfile sql j k s).1.connection
    unfolding get_getfile get_transfers_metadata mark_transfer_claimed conn
    get_getfile-IsClaimed s d row connected there =
        let (d', claimed) = claims d in
        simp (connected, begins d, selected sql laws j k answers d, claimed)
          (d', refl, claim-HasClaim k d d' row claimed there (inr refl))

    fetch-IsClaimed :
        (what : Bytes) (r : LoggedRequest) (s : Shared sql j) (d : Db) (row : SqlRow)
        → is_secret k ≡ true
        → r.path ≡ codes "/getfile/" ++ k
        → s.connection ≡ some d
        → find d k ≡ some row
        → IsClaimed (serve_request sql j what (get r) s).1.connection
    unfolding serve_request central_server get_route
    fetch-IsClaimed what r s d row fits path connected there =
        let (no_lookup, captured) = capture_getfile k fits in
        simp (path, no_lookup, captured) (get_getfile-IsClaimed s d row connected there)

    -- A transfer that the table has under an id that the routes take is claimed once it is fetched,
    -- where the statements about that id succeed, and stays so in the table whatever is requested
    -- later, up to the end of the requests or to one that stops the process: fetches, and
    -- registrations of this transfer too, whether or not their statements succeed.
    pub serve-IsClaimed :
        (what : Bytes) (r : LoggedRequest) (rs : List HttpRequest) (s : Shared sql j) (d : Db)
        (row : SqlRow)
        → is_secret k ≡ true
        → r.path ≡ codes "/getfile/" ++ k
        → s.connection ≡ some d
        → find d k ≡ some row
        → IsClaimed (serve sql j what (get r ∷ rs) s).1.connection
    serve-IsClaimed what r rs s d row fits path connected there =
        serve_first-keeps sql j IsClaimed (λ v. Unit {0}) IsClaimed-Keeps what (get r) rs s
          (Spares-all j (λ v. Unit {0}) (λ v. tt) rs)
          (fetch-IsClaimed what r s d row fits path connected there)
