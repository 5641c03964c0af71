-- ===== src/Server/Printed.antt =====
-- What central_server/ prints of a transfer and of a request: print_transfer of include/database.hpp
-- and the two loggers of main.cpp. A line ends in the byte 10.
use zapshare.Base.{ℕ, Bool, true, false, Bytes, codes, [], ◌∷◌, ◌++◌, Option, none, some}
use zapshare.Server.Rows.{TransferRow}
use zapshare.Utils.Text.{to_string}

abbrev line : Bytes → Bytes → Bytes
line label value = label ++ (value ++ (10 ∷ []))

-- A `bool` is printed as a number.
abbrev printed_bool : Bool → Bytes
printed_bool true = codes "1"
printed_bool false = codes "0"

unfoldable pub print_transfer : TransferRow → Bytes
print_transfer t =
    line (codes "id: ") t.id
    ++ (line (codes "sender_ip: ") t.sender_ip
        ++ (line (codes "sender_port: ") (to_string t.sender_port)
            ++ (line (codes "protocol: ") t.protocol
                ++ (line (codes "file_name: ") t.file_name
                    ++ (line (codes "file_size: ") (to_string t.file_size)
                        ++ (line (codes "file_hash: ") t.file_hash
                            ++ (line (codes "token: ") t.token
                                ++ (line (codes "claimed: ") (printed_bool t.claimed)
                                    ++ line (codes "created_at: ") t.created_at))))))))

-- What the loggers read of a request.
pub record LoggedRequest : Type 0 where
  pub method : Bytes
  pub path : Bytes
  pub version : Bytes
  pub forwarded_for : Bytes
  pub host : Bytes

unfoldable pub logger : LoggedRequest → ℕ → Bytes
logger req status =
    req.method ++ (codes " " ++ (req.path ++ (codes " -> " ++ (to_string status ++ (10 ∷ [])))))

abbrev logged_request : Option LoggedRequest → Bytes
logged_request none = []
logged_request (some req) =
    codes ", client: "
    ++ (req.forwarded_for
        ++ (codes ", request: '"
            ++ (req.method
                ++ (codes " "
                    ++ (req.path
                        ++ (codes " " ++ (req.version ++ (codes "', host: " ++ req.host))))))))

-- `err` is httplib's text of the error.
unfoldable pub error_logger : Bytes → Option LoggedRequest → Bytes
error_logger err req =
    err ++ (codes " while processing request" ++ (logged_request req ++ (10 ∷ [])))
