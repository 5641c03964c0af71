-- ===== src/Utils/Environment.antt =====
-- The environment that cli_tool/include/utils.hpp reads: `none` is a variable that is not set.
use zapshare.Base.{Bytes, Option, none, some, Outcome, returned, thrown}

unfoldable pub get_env : Option Bytes → Outcome Bytes
get_env none = thrown
get_env (some value) = returned value

-- `CENTRAL_SERVER_URL`, read before main starts: an exception here ends the process.
unfoldable pub central_server_url : Option Bytes → Outcome Bytes
unfolding get_env
central_server_url variable = get_env variable
