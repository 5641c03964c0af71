-- ===== src/Session/Handshake/Unverified.antt =====
-- What handle_handshake_packet of cli_tool/include/session.hpp does not look at.
use zapshare.Base.{◌≡◌, sym, ap, ◌∙◌, Bytes, some}
use zapshare.Platform.{Platform}
use zapshare.Protocol.{PeerIdentity, ClientHello, client_hello}
use zapshare.Session.{Session}
use zapshare.Session.Handshake.{
  handle_client_hello, handshake_body, handle_handshake_packet, accept, build_server_hello,
}

module _ (p : Platform) where
  open p use {World, codec}

  -- Two datagrams with client hellos of the same version, transfer and token have the same result,
  -- whatever nonce, keys and signature they carry: the receiver's signature is not verified, and the
  -- answer does not depend on the receiver's keys.
  pub handle_handshake_packet-ignores_signature :
      (a b : Bytes) (hello : ClientHello) (nonce signature : Bytes) (identity : PeerIdentity)
      (s : Session) (w : World)
      → codec.handshake_from_string a ≡ some (client_hello hello)
      → codec.handshake_from_string b
        ≡ some (
            client_hello (record hello {
              receiver_nonce = nonce;
              receiver_identity = identity;
              receiver_signature = signature;
            }))
      → handle_handshake_packet p a s w ≡ handle_handshake_packet p b s w
  unfolding handle_handshake_packet handshake_body handle_client_hello accept build_server_hello
  handle_handshake_packet-ignores_signature a b hello nonce signature identity s w ea eb =
      ap (λ packet. handshake_body p packet s w) ea
      ∙ sym (ap (λ packet. handshake_body p packet s w) eb)
