-- ===== src/Session/Stream.antt =====
-- `std::ifstream` as cli_tool/include/session.hpp uses it: open, seek, read and count. The bytes are
-- those of the file when it was opened: a file that changes during a transfer is not modelled.
pub mod Reads
use zapshare.Base.{
  ℕ, ◌+◌, ◌≡◌, ◌≤◌, Bool, true, false, ◌||◌, not, Bytes, [], Option, none, some, take, drop, length,
  ltb, if◌then◌else◌,
}

pub record Stream : Type 0 where
  pub is_open : Bool
  pub content : Bytes
  pub position : ℕ
  pub eof_bit : Bool
  pub fail_bit : Bool

-- A stream that was never opened.
abbrev pub closed_stream : Stream
closed_stream = record {
  is_open = false;
  content = [];
  position = 0;
  eof_bit = false;
  fail_bit = false;
}

-- `std::ifstream(path, binary)` on what the file system answers.
unfoldable pub open_stream : Option Bytes → Stream
open_stream (some bytes) = record {
  is_open = true;
  content = bytes;
  position = 0;
  eof_bit = false;
  fail_bit = false;
}
open_stream none = record {
  is_open = false;
  content = [];
  position = 0;
  eof_bit = false;
  fail_bit = true;
}

-- Since C++11 `seekg` clears the end-of-file bit first; a stream that has failed does not move.
unfoldable pub seekg : ℕ → Stream → Stream
seekg offset f =
    if f.fail_bit
    then record f { eof_bit = false }
    else record f { eof_bit = false; position = offset }

-- `read(buffer, n)`, with the bytes that `gcount` counts. A short read sets both bits, and a stream
-- that is not good reads nothing.
unfoldable pub read : ℕ → Stream → Bytes × Stream
read n f =
    let got = take n (drop f.position f.content) in
    if f.eof_bit || f.fail_bit
    then ([], record f { fail_bit = true })
    else if ltb (length got) n
    then (got, record f { position = f.position + length got; eof_bit = true; fail_bit = true })
    else (got, record f { position = f.position + length got })
