-- ===== src/Session/Stream/Reads.antt =====
-- What a seek and a read give on a stream that has failed at the end of the file only.
use zapshare.Base.{
  ℕ, ◌+◌, ◌≤◌, ◌≡◌, true, Bytes, length, take, drop, arith, Bool-cases, inl, inr, length-take,
  length-drop, drop_all, take-nil,
}
use zapshare.Session.Stream.{Stream, seekg, read}

-- The stream is open on `content`, and has failed, if it has, because `offset` is the end.
pub record IsReadyAt (content : Bytes) (offset : ℕ) (f : Stream) : Type 0 where
  pub opened : f.is_open ≡ true
  pub same : f.content ≡ content
  pub within : offset ≤ length content
  pub failed : f.fail_bit ≡ true → offset ≡ length content

pub read-seekg_payload :
    (n offset : ℕ) (content : Bytes) (f : Stream)
    → IsReadyAt content offset f
    → (read n (seekg offset f)).0 ≡ take n (drop offset content)
unfolding read seekg
read-seekg_payload n offset content f r = elim (Bool-cases f.fail_bit) [
  | inl e ↦ rw (e, drop_all offset content (omega (arith, r.failed e)), take-nil n)
  | inr e ↦ ground (arith, r.same)
]

-- After the read the stream is ready at the offset behind what was read.
pub read-seekg_ready :
    (n offset : ℕ) (content : Bytes) (f : Stream)
    → IsReadyAt content offset f
    → IsReadyAt content (offset + length (take n (drop offset content))) (read n (seekg offset f)).1
unfolding read seekg
read-seekg_ready n offset content f r = elim (Bool-cases f.fail_bit) [
  | inl e ↦
      rw (e, drop_all offset content (omega (arith, r.failed e)), take-nil n)
        (record {
          opened = r.opened;
          same = r.same;
          within = omega (arith, r.within);
          failed = λ _. omega (arith, r.failed e);
        })
  | inr e ↦
      let m = length (take n (drop offset content)) in
      let small : offset + m ≤ length content =
        omega (arith, length-take n (drop offset content), length-drop offset content, r.within) in
      rw (e, r.same)
        (ground (
          arith,
          small,
          r.opened,
          length-take n (drop offset content),
          length-drop offset content,
          r.within,
        ))
]
