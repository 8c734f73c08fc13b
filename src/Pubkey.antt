-- ===== src/Pubkey.antt =====
-- src/pubkey.rs: public keys and signatures of seeds. A signing key and an X25519 secret are their
-- bytes, and the X25519 function is a parameter.
use styrene_identity.Prelude.{Bytes}
use styrene_identity.External.Ed25519.{Ed25519}

unfoldable pub ed25519_signing_key : Bytes → Bytes
ed25519_signing_key seed = seed

unfoldable pub ed25519_verifying_key : Ed25519 → Bytes → Bytes
unfolding ed25519_signing_key
ed25519_verifying_key ed seed = Ed25519.verifying_key ed (ed25519_signing_key seed)

unfoldable pub x25519_public_key : (Bytes → Bytes) → Bytes → Bytes
x25519_public_key x25519 secret = x25519 secret

unfoldable pub sign_with_seed : Ed25519 → Bytes → Bytes → Bytes
unfolding ed25519_signing_key
sign_with_seed ed seed message = Ed25519.sign ed (ed25519_signing_key seed) message
