-- ===== src/Server/Main.antt =====
-- main of central_server/main.cpp as a whole: the start, and the requests answered one after the
-- other, each with the line that the logger prints. The pool of threads is left out but for its size.
pub mod Keeps
pub mod Claimed
pub mod Retrievable
use zapshare.Base.{ℕ, Bool, Bytes, List, [], ◌∷◌, Option, none, some, Outcome, returned, and_then}
use zapshare.Server.Printed.{LoggedRequest, logger}
use zapshare.Server.Handlers.{Shared}
use zapshare.Server.Routes.{central_server, startup}
use zapshare.Server.Sql.{Sql}
use zapshare.Utils.Libraries.{JsonLib, Reply}
use Prim.Native.Nat.{max}

-- A request as it comes in: its line and the headers that are logged, and the body of a POST.
pub data HttpRequest : Type 0 where
  get : LoggedRequest → HttpRequest
  post : LoggedRequest → Bytes → HttpRequest

-- `none` is a process that stopped.
pub record Answered : Type 0 where
  pub log : Bytes
  pub reply : Option Reply

-- `num_threads`, from the number that the hardware has.
abbrev pub num_threads : ℕ → ℕ
num_threads hardware_concurrency = max 2 hardware_concurrency

module _ {Db : Type 0} (sql : Sql Db) (j : JsonLib) (what : Bytes) where
  abbrev answer_of : LoggedRequest → Option Reply → Answered
  answer_of req none = record { log = []; reply = none }
  answer_of req (some reply) = record { log = logger req reply.status; reply = some reply }

  unfoldable pub serve_request : HttpRequest → Shared sql j → Answered × Shared sql j
  serve_request (get req) s =
      let (reply, s') = (central_server sql j what).http_get req.path s in (answer_of req reply, s')
  serve_request (post req body) s =
      let (reply, s') = (central_server sql j what).http_post req.path body s in
      (answer_of req reply, s')

  -- A request that stopped the process is the last one.
  abbrev pub behind :
      Option Reply
      → Answered
      → Shared sql j
      → List Answered × Shared sql j
      → List Answered × Shared sql j
  behind none a s rest = (a ∷ [], s)
  behind (some reply) a s rest = (a ∷ rest.0, rest.1)

  unfoldable pub serve : List HttpRequest → Shared sql j → List Answered × Shared sql j
  serve [] s = ([], s)
  serve (r ∷ rs) s = let (a, s1) = serve_request r s in behind a.reply a s1 (serve rs s1)

  unfoldable pub main :
      (Bytes → Outcome (Bool × Db))
      → Option Bytes
      → List HttpRequest
      → Outcome (List Answered × Shared sql j)
  unfolding serve
  main connect url requests = and_then (startup sql j connect url) λ s. returned (serve requests s)
