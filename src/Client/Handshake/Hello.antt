-- ===== src/Client/Handshake/Hello.antt =====
-- The hello that sign_client_hello and perform_handshake of cli_tool/src/client.cpp make, where
-- libsodium works.
use zapshare.Base.{◌+◌, ◌≡◌, refl, true, Bytes, [], length, returned, arith}
use zapshare.Client.Handshake.{client_transcript, sign_client_hello, build_client_hello}
use zapshare.Crypto.{IdentityKeyPair, verify_signature}
use zapshare.Crypto.Keys.{sign_lem, verify_signature_lem}
use zapshare.Crypto.Libsodium.{SodiumLaws}
use zapshare.Crypto.Working.{
  IsWorking, hello_keys, generate_identity_keypair_lem, generate_ephemeral_keypair_lem,
  random_nonce_lem,
}
use zapshare.Platform.{Platform}
use zapshare.Protocol.{version_1, ClientHello, client_hello}
use zapshare.Protocol.Codec.{handshake_texts}

module _ (p : Platform) where
  open p use {World, sodium}

  -- A hello for the token, signed with the identity whose key it carries.
  pub record IsHello (token : Bytes) (hello : ClientHello) : Type 0 where
    pub version : hello.version ≡ version_1
    pub transfer_id : hello.transfer_id ≡ token
    pub same_token : hello.token ≡ token
    pub signed :
        verify_signature sodium
          (client_transcript hello)
          hello.receiver_signature
          hello.receiver_identity.long_term_public_key
        ≡ returned true
    pub size :
        handshake_texts (client_hello hello) ≡ length token + (length token + hello_keys sodium)

  module _ (laws : SodiumLaws sodium) (works : IsWorking sodium) (token : Bytes) (w : World) where
    abbrev identity : IdentityKeyPair
    identity = record {
      public_key = (sodium.sign_keypair w).1;
      private_key = (sodium.sign_keypair w).2;
    }

    abbrev keyed : World
    keyed = (sodium.sign_keypair w).3

    abbrev unsigned : ClientHello
    unsigned = record {
      version = version_1;
      transfer_id = token;
      token = token;
      receiver_nonce = (sodium.randombytes_buf 32 (sodium.kx_keypair keyed).3).0;
      receiver_identity = record {
        long_term_public_key = (sodium.sign_keypair w).1;
        ephemeral_public_key = (sodium.kx_keypair keyed).1;
      };
      receiver_signature = [];
    }

    abbrev signature : Bytes
    signature = (sodium.sign_detached (client_transcript unsigned) (sodium.sign_keypair w).2).1

    abbrev hello : ClientHello
    hello = record unsigned { receiver_signature = signature }

    pair : laws.IsSignPair (sodium.sign_keypair w).1 (sodium.sign_keypair w).2
    pair = laws.sign_keypair_pair w (works.signs w)

    hello-IsHello : IsHello token hello
    unfolding client_transcript
    hello-IsHello =
        let kx = laws.kx_keypair_pair keyed (works.exchanges keyed) in
        let long_term = laws.sign_pair_sizes _ _ pair in
        let ephemeral = laws.kx_pair_sizes _ _ kx in
        let nonce = laws.random_size 32 (sodium.kx_keypair keyed).3 in
        let signed = laws.sign_size (client_transcript unsigned) _ _ pair in
        record {
          version = refl;
          transfer_id = refl;
          same_token = refl;
          signed =
              verify_signature_lem sodium laws works.ready (client_transcript unsigned) identity
                pair;
          size = omega (arith, long_term.0, ephemeral.0, nonce, signed);
        }

    -- The hello is made, and is as it should be.
    pub build_client_hello-IsHello :
        (r : ClientHello × World) × (build_client_hello p token w ≡ returned r) × IsHello token r.0
    unfolding build_client_hello sign_client_hello
    build_client_hello-IsHello = (
      (hello, (sodium.randombytes_buf 32 (sodium.kx_keypair keyed).3).1),
      simp (
        generate_identity_keypair_lem sodium laws works w,
        generate_ephemeral_keypair_lem sodium laws works keyed,
        random_nonce_lem sodium laws works 32 (sodium.kx_keypair keyed).3,
        sign_lem sodium laws works.ready (client_transcript unsigned) identity pair,
      ),
      hello-IsHello,
    )
