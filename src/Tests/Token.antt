-- ===== src/Tests/Token.antt =====
-- A token from six draws.
use zapshare.Base.{◌≡◌, All, length}
use zapshare.Utils.Token.{Draws, generate_uuid_token}
use zapshare.Utils.Token.Routable.{IsRouteChar, generate_uuid_token-IsRouteChar}

abbrev pub draws : Draws
draws = record {
  first = 0xdeadbeef;
  second = 0x12345678;
  third = 0xffffffff;
  fourth = 7;
  fifth = 0xcafe;
  sixth = 0xffffffff;
}

generate_uuid_token-IsRouteChar_example :
    All IsRouteChar (generate_uuid_token draws) × (length (generate_uuid_token draws) ≡ 40)
generate_uuid_token-IsRouteChar_example = generate_uuid_token-IsRouteChar draws
