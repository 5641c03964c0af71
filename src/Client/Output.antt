-- ===== src/Client/Output.antt =====
-- `std::ofstream` as receive_file of cli_tool/src/client.cpp uses it: open, seek, write, close.
use zapshare.Base.{
  ℕ, zero, suc, ◌+◌, ◌-◌, ◌≡◌, Bool, Bytes, [], ◌∷◌, ◌++◌, Option, some, take, drop, length, arith,
  if◌then◌else◌, take_all, drop_all, append-nil,
}

-- `stale` is what the path holds where it cannot be opened for writing.
pub record Output : Type 0 where
  pub opened : Bool
  pub content : Bytes
  pub stale : Option Bytes

-- Opened with `trunc`, so empty.
unfoldable pub open_output : Bool → Option Bytes → Output
open_output opened stale = record { opened = opened; content = []; stale = stale }

zeros : ℕ → Bytes
zeros zero = []
zeros (suc n) = 0 ∷ zeros n

-- Bytes put over a file from an offset on; a gap in front of them reads as zeros.
unfoldable pub overwrite : ℕ → Bytes → Bytes → Bytes
unfolding zeros
overwrite offset payload content =
    take offset (content ++ zeros (offset - length content))
    ++ (payload ++ drop (offset + length payload) content)

-- `seekp(offset)` and `write(payload)`; a stream that is not open writes nothing.
unfoldable pub write_at : ℕ → Bytes → Output → Output
write_at offset payload out =
    if out.opened then record out { content = overwrite offset payload out.content } else out

-- What a reader finds under the path once the stream is closed.
unfoldable pub read_back : Output → Option Bytes
read_back out = if out.opened then some out.content else out.stale

-- A write at the end of the file appends.
pub overwrite_end :
    (payload content : Bytes) → overwrite (length content) payload content ≡ content ++ payload
unfolding overwrite
overwrite_end payload content =
    let none_left : length content - length content ≡ 0 = omega arith in
    rw (
      none_left,
      append-nil content,
      take_all (length content) content (omega arith),
      drop_all (length content + length payload) content (omega arith),
      append-nil payload,
    )
