-- ===== src/Tests/Fetches.antt =====
-- `zapshare get` at one run: the central server, the STUN server and the sender all answer.
use zapshare.Base.{true, Bytes, codes, List, [], ◌∷◌, some, none, returned, bytes_eq, if◌then◌else◌}
use zapshare.Client.Output.{open_output}
use zapshare.Client.Receive.{Event, received, timeout}
use zapshare.CommandLine.Main.{Files}
use zapshare.Config.{Endpoint, get_command}
use zapshare.Platform.{Platform}
use zapshare.Utils.Libraries.{Http}
use zapshare.Utils.PublicAddress.{Net}
use zapshare.Tests.Hellos.{answering}
use zapshare.Tests.Stun.{answer}
use zapshare.Tests.Token.{draws}
use zapshare.Tests.World.{platform}

-- The secret is known, and every text of the metadata is "61".
abbrev knowing_http : Http (Unit {0})
knowing_http = record {
  http_get = λ path w. (
    some (record {
      status = 200;
      body = if bytes_eq path (codes "/lookup/61") then codes "True" else codes "61";
    }),
    w,
  );
  http_post = λ path body w. (some (record { status = 201; body = [] }), w);
}

abbrev fetching : Platform
fetching = record platform { http = knowing_http; codec = answering }

abbrev net : Net (Unit {0})
net = record {
  rand = λ w. (300, w);
  stun_exchange = λ host port request w. (returned (answer, 44), w);
  local_port = λ w. 40000;
  local_address_towards = λ host port w. returned (codes "10.0.0.7");
  make_address = returned;
}

abbrev files : Files (Unit {0})
files = record {
  exists = λ path w. true;
  file_name = λ path. path;
  file_size = λ path w. returned 1;
  draws = λ w. (draws, w);
  open_for_writing = λ path w. open_output true none;
}

abbrev arguments : List Bytes
arguments = get_command ∷ codes "61" ∷ []

abbrev peer : Endpoint
peer = record { address = codes "61"; port = 7 }

-- The answer to the hello, the whole file "a" in one chunk, and the done packet with its hash.
abbrev events : List Event
events =
    timeout
    ∷ received peer (codes "61")
    ∷ received peer (2 ∷ 0 ∷ 2 ∷ codes "61a")
    ∷ received peer (3 ∷ 1 ∷ 2 ∷ codes "6161")
    ∷ []
