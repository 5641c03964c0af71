-- ===== src/Platform.antt =====
-- What the program's two sides run on: the libraries they call, over one state `World` of all that
-- is outside the process (the random generator, the central server, the file system).
use zapshare.Base.{Bytes, Option}
use zapshare.Crypto.Libsodium.{Sodium}
use zapshare.Protocol.Codec.{Codec}
use zapshare.Utils.Libraries.{JsonLib, Http}

pub record Platform : Type 1 where
  pub World : Type 0
  pub sodium : Sodium World
  pub http : Http World
  pub json : JsonLib
  pub codec : Codec
  -- `std::ifstream(path)`: the file's bytes, or `none` if it does not open
  pub read_file : Bytes → World → Option Bytes
