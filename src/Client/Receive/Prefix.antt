-- ===== src/Client/Receive/Prefix.antt =====
-- The file that the receiver writes as a prefix of the sender's, and what a payload adds to it.
use zapshare.Base.{
  ℕ, ◌+◌, ◌%◌, ◌^◌, ◌≤◌, ◌<◌, ◌≡◌, refl, sym, ap, subst, ◌∙◌, true, Bytes, ◌++◌, Option, none, some,
  length, take, drop, arith, length-take, take-append-piece, length-drop,
}
use zapshare.Config.{size_modulus}
use zapshare.Protocol.{ControlPacket, get, ack, chunk, done, transfer_error, no_control_body}
use zapshare.Client.Output.{write_at, overwrite, overwrite_end}
use zapshare.Client.Receive.{Receiver, take_payload}

-- A chunk is a part of the file if its offset lies in the file; a done packet tells its length.
abbrev pub IsOf : Bytes → Option ControlPacket → Type 0
IsOf content (some (chunk c)) =
    c.offset ≤ length content → c.payload ≡ take (length c.payload) (drop c.offset content)
IsOf content (some (done d)) = d.final_size ≡ length content
IsOf content (some (get g)) = Unit
IsOf content (some (ack a)) = Unit
IsOf content (some (transfer_error e)) = Unit
IsOf content (some no_control_body) = Unit
IsOf content none = Unit

-- What was written so far is the front of the file.
pub record HasPrefix (content : Bytes) (r : Receiver) : Type 0 where
  pub opened : r.out.opened ≡ true
  pub within : r.current_offset ≤ length content
  pub prefix : r.out.content ≡ take r.current_offset content

-- A part of the file, written at the end of the prefix, makes a longer prefix.
overwrite-prefix :
    (content payload : Bytes) (offset : ℕ)
    → offset ≤ length content
    → payload ≡ take (length payload) (drop offset content)
    → overwrite offset payload (take offset content) ≡ take (offset + length payload) content
overwrite-prefix content payload offset within part =
    let size : length (take offset content) ≡ offset = omega (arith, length-take offset content) in
    let end =
      subst (λ n. overwrite n payload (take offset content) ≡ take offset content ++ payload) size
        (overwrite_end payload (take offset content)) in
    let longer = take-append-piece offset (length payload) content within in
    end ∙ subst (λ s. take offset content ++ s ≡ take (offset + length s) content) (sym part) longer

part-within :
    (content payload : Bytes) (offset : ℕ)
    → offset ≤ length content
    → payload ≡ take (length payload) (drop offset content)
    → offset + length payload ≤ length content
part-within content payload offset within part = omega (
  arith,
  ap length part,
  length-take (length payload) (drop offset content),
  length-drop offset content,
)

pub take_payload-HasPrefix :
    (content payload : Bytes) (r : Receiver)
    → length content < 2 ^ 64
    → HasPrefix content r
    → payload ≡ take (length payload) (drop r.current_offset content)
    → HasPrefix content (take_payload payload r)
unfolding take_payload write_at
take_payload-HasPrefix content payload r small h part =
    let inside = part-within content payload r.current_offset h.within part in
    let same : (r.current_offset + length payload) % size_modulus
        ≡ r.current_offset + length payload =
      omega arith in
    simp (h.opened, h.prefix, same, overwrite-prefix content payload r.current_offset h.within part)
      (record { opened = refl; within = inside; prefix = refl })

pub take_payload-current_offset :
    (content payload : Bytes) (r : Receiver)
    → length content < 2 ^ 64
    → HasPrefix content r
    → payload ≡ take (length payload) (drop r.current_offset content)
    → (take_payload payload r).current_offset ≡ r.current_offset + length payload
unfolding take_payload
take_payload-current_offset content payload r small h part =
    let inside = part-within content payload r.current_offset h.within part in omega arith
