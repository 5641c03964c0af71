-- ===== src/CommandLine/Main/Exits.antt =====
-- What the exit codes of cli_tool/main.cpp mean.
use zapshare.Base.{zero, suc, ◌≡◌, true, false, Bytes, List, ◌∷◌, none, some, returned}
use zapshare.Client.Run.{ClientRun}
use zapshare.Client.Run.Verified.{RunVerified}
use zapshare.CommandLine.Main.{Files, Command, refused, sent, fetched, prepare_transfer}
use zapshare.CommandLine.Sender.{Arrival, Server, new_server, farewell, run}
use zapshare.Config.{Transfers, Datagram, send_command, get_command}
use zapshare.FileHash.{Sha256, compute_file_hash}
use zapshare.Platform.{Platform}
use zapshare.Utils.Metadata.{register_transfer}
use zapshare.Utils.PublicAddress.{Net}
use zapshare.Utils.Token.{generate_uuid_token}

module _ (p : Platform) (sha : Sha256) (net : Net p.World) (files : Files p.World) where
  open p use {World, http, json, read_file}

  -- A command line `zapshare get token`, whose fetch is verified.
  pub record HasGot (arguments : List Bytes) (run : ClientRun World) : Type 0 where
    pub token : Bytes
    pub more : List Bytes
    pub asked : arguments ≡ get_command ∷ token ∷ more
    pub verified : RunVerified p sha net token run

  -- A command line `zapshare send path` for a file that is there. The transfer with the file's hash,
  -- size and name is the one that was registered, and the server that was run is that of the path,
  -- under the transfer's id.
  pub record HasSent (arguments : List Bytes) (arrivals : List Arrival) (w : World)
      (end' : Server × List Datagram × World) : Type 0 where
    pub path : Bytes
    pub more : List Bytes
    pub asked : arguments ≡ send_command ∷ path ∷ more
    pub there : files.exists path w ≡ true
    pub transfer : Transfers
    pub prepared_world : World
    pub registered_world : World
    pub prepared : prepare_transfer p sha net files path w ≡ returned (transfer, prepared_world)
    pub hashed : compute_file_hash sha (read_file path w) ≡ returned transfer.file_hash
    pub sized : files.file_size path w ≡ returned transfer.file_size
    pub named : transfer.file_name ≡ files.file_name path
    pub drawn : transfer.id ≡ generate_uuid_token (files.draws w).0
    pub registered : register_transfer json http transfer prepared_world ≡ returned registered_world
    pub served : run p net (new_server path) transfer.id arrivals registered_world ≡ returned end'

  -- What a command line and the way it ended tell.
  abbrev pub Tells : List Bytes → List Arrival → World → Command World → Type 0
  Tells arguments arrivals w (refused code text) = code ≡ 1
  Tells arguments arrivals w (sent s datagrams text w') =
      (text ≡ farewell s) × HasSent arguments arrivals w (s, datagrams, w')
  Tells arguments arrivals w (fetched (some zero) run) = HasGot arguments run
  Tells arguments arrivals w (fetched (some (suc code)) run) =
      (code ≡ 0) × (run.result ≡ some false)
  Tells arguments arrivals w (fetched none run) = run.result ≡ none

  -- The transfer that a file is given.
  record IsPrepared (path : Bytes) (w : World) (t : Transfers) : Type 0 where
    hashed : compute_file_hash sha (read_file path w) ≡ returned t.file_hash
    sized : files.file_size path w ≡ returned t.file_size
    named : t.file_name ≡ files.file_name path
    drawn : t.id ≡ generate_uuid_token (files.draws w).0
