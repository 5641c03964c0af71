-- ===== src/Client/Receive/Rounds.antt =====
-- What a round does on the packets that carry a transfer on.
use zapshare.Base.{
  ℕ, ◌≡◌, true, Bytes, [], ◌∷◌, some, returned, bytes_eq, bytes_eq_refl, ==_refl, ==_iff, ◌==◌,
  subst, sym,
}
use zapshare.Config.{Endpoint, endpoint_eq}
use zapshare.FileHash.{Sha256, hash_content}
use zapshare.FileHash.Correct.{compute_file_hash-some}
use zapshare.Protocol.{DataChunk, Done, chunk, done, ack}
use zapshare.Protocol.Codec.{Codec, CodecLaws}
use zapshare.Client.Output.{read_back}
use zapshare.Client.Receive.{
  received, Request, Receiver, goes_on, finishes, delivered, take_payload, handle_data, handle_done,
  check_hash, packet_round, receive_round, ack_current, send_ack,
}

pub endpoint_eq_refl : (e : Endpoint) → endpoint_eq e e ≡ true
endpoint_eq_refl e = simp (bytes_eq_refl e.address, ==_refl e.port)

module _ (codec : Codec) (sha : Sha256) (q : Request) where
  open q use {peer, transfer_id, expected_hash}

  abbrev pub heard : Receiver → Receiver
  heard r = record r { retries = 0 }

  abbrev pub ack_bytes : ℕ → Bytes
  ack_bytes o =
      (codec.control_to_string (ack (record { transfer_id = transfer_id; next_offset = o }))).1

  pub ack_current_lem :
      CodecLaws codec
      → (r : Receiver)
      → ack_current codec sha q r ≡ record { to = peer; bytes = ack_bytes r.current_offset } ∷ []
  unfolding ack_current send_ack
  ack_current_lem laws r = simp (laws.control_serializes _)

  pub receive_round-chunk :
      (bytes : Bytes) (c : DataChunk) (r : Receiver)
      → codec.control_from_string (delivered bytes) ≡ some (chunk c)
      → c.transfer_id ≡ transfer_id
      → c.offset ≡ r.current_offset
      → let r' = take_payload c.payload (heard r) in
        receive_round codec sha q (received peer bytes) r
        ≡ returned (goes_on, r', ack_current codec sha q r')
  unfolding receive_round packet_round handle_data
  receive_round-chunk bytes c r parsed same_id at =
      let id_test : bytes_eq c.transfer_id transfer_id ≡ true =
        subst (λ i. bytes_eq c.transfer_id i ≡ true) same_id (bytes_eq_refl c.transfer_id) in
      let offset_test : (c.offset == r.current_offset) ≡ true =
        (==_iff c.offset r.current_offset).1 at in
      simp (endpoint_eq_refl peer, parsed, id_test, offset_test)

  pub receive_round-done :
      (bytes : Bytes) (d : Done) (r : Receiver)
      → codec.control_from_string (delivered bytes) ≡ some (done d)
      → d.transfer_id ≡ transfer_id
      → d.final_size ≡ r.current_offset
      → r.out.opened ≡ true
      → hash_content sha r.out.content ≡ expected_hash
      → receive_round codec sha q (received peer bytes) r
        ≡ returned (finishes true, heard r, ack_current codec sha q (heard r))
  unfolding receive_round packet_round handle_done check_hash read_back
  receive_round-done bytes d r parsed same_id at opened hash =
      let id_test : bytes_eq d.transfer_id transfer_id ≡ true =
        subst (λ i. bytes_eq d.transfer_id i ≡ true) same_id (bytes_eq_refl d.transfer_id) in
      let size_test : (r.current_offset == d.final_size) ≡ true =
        (==_iff r.current_offset d.final_size).1 (sym at) in
      let hash_test : bytes_eq (hash_content sha r.out.content) expected_hash ≡ true =
        subst (λ h. bytes_eq (hash_content sha r.out.content) h ≡ true) hash
          (bytes_eq_refl (hash_content sha r.out.content)) in
      simp (
        endpoint_eq_refl peer,
        parsed,
        id_test,
        size_test,
        opened,
        compute_file_hash-some sha r.out.content,
        hash_test,
      )
