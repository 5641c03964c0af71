-- ===== src/CommandLine/Main.antt =====
-- main and start_server of cli_tool/main.cpp. Of what is printed, a refusal keeps the text. A run
-- that has not ended when its events do gives no exit code.
pub mod Exits
use zapshare.Base.{
  ℕ, Bool, true, false, not, Bytes, codes, List, [], ◌∷◌, Option, none, some, Outcome, returned,
  thrown, aborted, and_then, bytes_eq, if◌then◌else◌,
}
use zapshare.Client.Output.{Output}
use zapshare.Client.Receive.{Event}
use zapshare.Client.Run.{ClientRun, run_client_session}
use zapshare.CommandLine.Sender.{Arrival, Server, new_server, farewell, run}
use zapshare.CommandLine.Usage.{print_usage, invalid_secret, invalid_file_path, invalid_command}
use zapshare.Config.{Transfers, Datagram, send_command, get_command}
use zapshare.FileHash.{Sha256, compute_file_hash}
use zapshare.Platform.{Platform}
use zapshare.Utils.Environment.{central_server_url}
use zapshare.Utils.Metadata.{register_transfer, look_up, get_transfer_metadata}
use zapshare.Utils.PublicAddress.{Net, get_public_endpoint, get_local_ip_address}
use zapshare.Utils.Signalling.{PublicEndpoint}
use zapshare.Utils.Token.{Draws, generate_uuid_token}

-- The file system and the generator of tokens.
pub record Files (World : Type 0) : Type 0 where
  pub exists : Bytes → World → Bool
  -- std::filesystem::path(path).filename()
  pub file_name : Bytes → Bytes
  pub file_size : Bytes → World → Outcome ℕ
  pub draws : World → Draws × World
  -- the output of a transfer, opened for writing with `trunc`
  pub open_for_writing : Bytes → World → Output

-- What a command did.
pub data Command (World : Type 0) : Type 0 where
  -- the exit code and the text printed
  refused : ℕ → Bytes → Command World
  -- with the text that the end of the server prints
  sent : Server → List Datagram → Bytes → World → Command World
  fetched : Option ℕ → ClientRun World → Command World

module _ (p : Platform) (sha : Sha256) (net : Net p.World) (files : Files p.World) where
  open p use {World, http, json, read_file}

  -- Only a std::exception of the STUN part is caught.
  abbrev caught_ip : Outcome PublicEndpoint → Outcome Bytes
  caught_ip (returned public_ep) = returned public_ep.ip
  caught_ip thrown = returned (codes "127.0.0.1")
  caught_ip aborted = aborted

  abbrev with_public_ip :
      Bytes → Bytes → ℕ → Bytes → Outcome PublicEndpoint × World → Outcome (Transfers × World)
  with_public_ip filepath file_hash file_size token (public_ep, w) =
      and_then (caught_ip public_ep) λ sender_ip.
        and_then (get_local_ip_address net w) λ sender_local_ip. returned (
          record {
            id = token;
            sender_ip = sender_ip;
            sender_port = 5173;
            sender_local_ip = sender_local_ip;
            sender_local_port = 5173;
            protocol = codes "udp";
            file_name = files.file_name filepath;
            file_size = file_size;
            file_hash = file_hash;
            token = token;
          },
          w,
        )

  -- `transfer` as it is registered.
  unfoldable pub prepare_transfer : Bytes → World → Outcome (Transfers × World)
  prepare_transfer filepath w = and_then (compute_file_hash sha (read_file filepath w)) λ file_hash.
      and_then (files.file_size filepath w) λ file_size.
        let (drawn, w1) = files.draws w in
        with_public_ip filepath file_hash file_size (generate_uuid_token drawn)
          (get_public_endpoint net w1)

  unfoldable pub start_server :
      Bytes → Bytes → List Arrival → World → Outcome (Server × List Datagram × World)
  start_server file_path transfer_id arrivals w =
      run p net (new_server file_path) transfer_id arrivals w

  unfoldable pub check_file_exists : Bytes → World → Bool
  check_file_exists filepath w = files.exists filepath w

  unfoldable pub send_file : Bytes → List Arrival → World → Outcome (Command World)
  unfolding prepare_transfer start_server check_file_exists
  send_file filepath arrivals w =
      if not (check_file_exists filepath w)
      then returned (refused 1 invalid_file_path)
      else and_then (prepare_transfer filepath w) λ (transfer, w1).
        and_then (register_transfer json http transfer w1) λ w2.
          and_then (start_server filepath transfer.id arrivals w2)
            λ (s, datagrams, w3). returned (sent s datagrams (farewell s) w3)

  -- The exit code of a fetch.
  abbrev exit_code : Option Bool → Option ℕ
  exit_code none = none
  exit_code (some true) = some 0
  exit_code (some false) = some 1

  abbrev fetch : Bytes → List Event → Outcome Transfers × World → Outcome (Command World)
  fetch secret es (t, w) = and_then t λ peer_transfer.
      and_then
        (run_client_session p sha net secret (files.open_for_writing peer_transfer.file_name w) es
          w)
        λ r. returned (fetched (exit_code r.result) r)

  unfoldable pub get_file : Bytes → List Event → World → Outcome (Command World)
  get_file secret es w =
      let (found, w1) = look_up json http secret w in
      if not found
      then returned (refused 1 invalid_secret)
      else fetch secret es (get_transfer_metadata json http secret w1)

  -- A command without its argument.
  abbrev refuse_bare : Bytes → Command World
  refuse_bare cmd =
      if bytes_eq cmd send_command
      then refused 1 invalid_file_path
      else if bytes_eq cmd get_command
      then refused 1 invalid_secret
      else refused 1 invalid_command

  -- The arguments behind the program's name.
  unfoldable pub main : List Bytes → List Arrival → List Event → World → Outcome (Command World)
  unfolding send_file get_file
  main [] arrivals es w = returned (refused 1 print_usage)
  main (cmd ∷ []) arrivals es w = returned (refuse_bare cmd)
  main (cmd ∷ argument ∷ more) arrivals es w =
      if bytes_eq cmd send_command
      then send_file argument arrivals w
      else if bytes_eq cmd get_command
      then get_file argument es w
      else returned (refused 1 invalid_command)

  -- The process: `url` is the variable CENTRAL_SERVER_URL, read first.
  unfoldable pub process :
      Option Bytes → List Bytes → List Arrival → List Event → World → Outcome (Command World)
  unfolding main
  process url arguments arrivals es w =
      and_then (central_server_url url) λ _. main arguments arrivals es w
