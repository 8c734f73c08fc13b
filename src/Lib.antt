-- ===== src/Lib.antt =====
-- Verification of styrene-identity: one 32-byte root secret derives every key of a mesh node, and is
-- kept, backed up, named and bound to signed records by the parts modelled here.
--
-- The parts and their files:
--
-- * Derive models src/derive.rs. A flat purpose expands the root's pseudo-random key, and a
--   parameterized family goes through a master secret of its own. Derive/Purposes is about the flat
--   purposes, Derive/Families about all derivations of one root together.
-- * IdentityId models src/identity_id.rs: the id of a public key, its CBOR form and its text
--   (IdentityId/Text).
-- * Records models src/records/mod.rs: key ids (Records/KeyId), signing frames (Records/Frame) and
--   identifiers (Records/Identifier). Records/RuntimeCertificate and Records/LifecycleTransition model
--   the two signed records of that directory; their child modules describe validation by parts
--   (Times, Custody, Heads, Claims) and the signed bytes (Record).
-- * RepositorySigning models src/repository_signing.rs: issuing a binding and its strict
--   verification. Items, Protected and Outer follow the encoder and the decoder, RoundTrip leads from
--   issuing to verifying, Strict from a verified binding back to its bytes, and ErrorClass is the
--   classification of errors.
-- * FileSigner models src/file_signer.rs: the encrypted file's format here and in RoundTrip, the
--   operations on the file in FileSigner/Custody, whose children are about exclusive saving
--   (Exclusive, Generate) and about saving where no call fails (Saved). The passphrase provider is a
--   function from the number of its call to an answer: each call may fail or answer differently.
-- * Vault models src/vault.rs: backups and the guarded operations around the file. Vault/Keeps is
--   about files that are there, Vault/Restore about restoring, Vault/Twice about installing where
--   no call fails, Vault/Protect about making a backup and opening it. Vault/History is the step
--   relation of all operations on vaults and identity files, Vault/Race is about two restores at
--   once, Vault/Spec is an abstract vault that knows what a passphrase opens and no files, which
--   Vault/Refine relates to the vault where no call on the files fails, and Vault/Created leads
--   from creating an identity to unlocking it, and Vault/Kept adds any operations in between.
-- * SignerChain models the chain of src/signer.rs: the order of signers and the choice of one
--   (SignerChain/Choice). SignerChain/Signers makes chain members of the file signer and of the
--   platform signers, and SignerChain/Honest is about what such a chain signs.
-- * Pubkey and Identity model src/pubkey.rs and src/identity.rs: the keys of a seed, the hash of an
--   identity, and attestations (Identity/Attestation).
-- * Pki models src/pki.rs: serial numbers and identity URIs here and in Pki/Text, the labels that TLS
--   keys are derived from in Pki/SeedLabel, profiles and label validation in Pki/Profile over the
--   string functions of Pki/Utf8, subject alternative names in Pki/Names, certificate parameters and
--   keys in Pki/Params, and the derivation of certificates and chains in Pki/Issue (Anchor: the trust
--   anchor; Keys: private keys; Windows: validity).
-- * SshAgent models src/ssh_agent.rs: the keys it offers (SshAgent/Offers), its two
--   requests (SshAgent/Session) and its panics (SshAgent/Labels).
-- * Discover models src/discover.rs, Format src/format.rs, and Format/Export src/export.rs.
-- * Platform models the custody of src/android_keystore_signer.rs, src/keychain_signer.rs and
--   src/yubikey_signer.rs. A store is a parameter whose calls take its state to a result and the next
--   state; the device and the drawn bytes are parameters too.
-- * FileSystem stands for std::fs: a store of files by path, and an environment that decides which
--   call fails, what a failed write leaves behind and which random bytes are drawn. An operation of
--   the file signer or the vault is a function of the store that returns a result and the store
--   after. Operations run one at a time; Vault/Race is about two of which both have looked before
--   either writes.
-- * External holds the interfaces of the crates that the program calls: minicbor, ed25519-dalek and
--   hex, each with the documented laws that proofs rely on. HKDF, SHA-256, Argon2id, the cipher and
--   the derived CBOR encodings are arguments of the definitions that use them. A binding that rests on
--   a hash is stated as: equal, or here is a collision.
-- * Prelude holds the shared lists, tests, results and byte strings; Tests instantiates the
--   parameters and applies the theorems to concrete data.
--
-- Bytes are natural numbers in lists, and a fixed array is a list whose length is a hypothesis
-- where it matters. Machine integers keep their widths as hypotheses or as the source's checked
-- operations. Rust's errors are values of a result type; panics that depend on data, of slices and
-- indices too, are values too. No definition needs fuel: the program's loops run over lists, and a
-- year is printed with at most ten digits, which an i32 has.
--
-- Not modelled: zeroizing, constant-time comparison, file modes, Debug and Display output, the building
-- of X.509 in rcgen, the protocol loop of the SSH agent, the constructor of the Android entry, dynamic
-- parts of error texts, and the programs that print test vectors.
pub mod Prelude
pub mod External
pub mod FileSystem
pub mod FileSigner
pub mod IdentityId
pub mod Derive
pub mod Records
pub mod RepositorySigning
pub mod Vault
pub mod SignerChain
pub mod Pki
pub mod Pubkey
pub mod Identity
pub mod Platform
pub mod Format
pub mod Discover
pub mod SshAgent
mod Tests
