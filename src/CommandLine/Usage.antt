-- ===== src/CommandLine/Usage.antt =====
-- cli_tool/include/error.hpp: the texts that the tool prints where it refuses its arguments. A line
-- ends in the byte 10.
use zapshare.Base.{Bytes, codes, [], ◌∷◌, ◌++◌}

abbrev line : Bytes → Bytes
line text = text ++ (10 ∷ [])

unfoldable pub print_usage : Bytes
print_usage =
    line (codes "usage:")
    ++ (line (codes "    zapshare send [filepath]") ++ line (codes "    zapshare get [secret]"))

unfoldable pub invalid_secret : Bytes
unfolding print_usage
invalid_secret = line (codes "Invalid secret!") ++ print_usage

unfoldable pub invalid_file_path : Bytes
unfolding print_usage
invalid_file_path = line (codes "Invalid filepath!") ++ print_usage

unfoldable pub invalid_command : Bytes
unfolding print_usage
invalid_command = line (codes "Invalid Command!") ++ print_usage
