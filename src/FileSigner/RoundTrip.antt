-- ===== src/FileSigner/RoundTrip.antt =====
-- Encryption and decryption of the identity file: src/file_signer.rs.
use styrene_identity.Prelude.{
  ℕ, ◌≤◌, [], length-take, ◌&&◌, Bool-cases, refl, ◌+◌, ◌≡◌, ◌≢◌, true, ◌++◌, ◌∷◌, append_assoc,
  inl, inr, not, ◌>>=◌, ◌>>◌, reject, ok_or, ◌==◌, if◌then◌else◌, Option-cases, ◌⊎◌, some, Result,
  ok, err, length, take, drop, length-append, length-drop, take_front, drop_front, Bytes, bytes_eq,
  arith,
}
use styrene_identity.FileSigner.{
  FileCrypto, SignerError, slice, slice_from, index, from_slice, byte_or_panic, versioned_payload,
  Message, unsupported_version, invalid_length, starts_with, panicked, decryption_failed,
  cipher_init, wrong_passphrase_or_corrupted, secret_len, magic, seal, payload_of, decrypt,
}

-- Argon2id derives a key for every 32-byte salt, and the cipher takes it; a ciphertext is 16 bytes
-- longer than its plaintext, and its key and nonce decrypt it.
pub record IsFileCrypto (crypto : FileCrypto) : Type 0 where
  pub derives :
      (passphrase salt : Bytes)
      → length salt ≡ 32
      → (key : Bytes) × (FileCrypto.hash_password crypto passphrase salt ≡ some key)
        × (FileCrypto.key_accepted crypto key ≡ true)
  pub encrypts :
      (key nonce plaintext : Bytes)
      → FileCrypto.key_accepted crypto key ≡ true
      → length nonce ≡ 12
      → (ciphertext : Bytes) × (FileCrypto.encrypt crypto key nonce plaintext ≡ some ciphertext)
        × (length ciphertext ≡ length plaintext + 16)
        × (FileCrypto.decrypt crypto key nonce ciphertext ≡ some plaintext)
  pub decrypts :
      (key nonce ciphertext plaintext : Bytes)
      → FileCrypto.decrypt crypto key nonce ciphertext ≡ some plaintext
      → length ciphertext ≡ length plaintext + 16

-- The parts of a payload of 92 bytes are in range.
slices :
    (payload : Bytes)
    → length payload ≡ 92
    → (slice 0 32 payload ≡ ok (take 32 payload))
      × (slice 32 44 payload ≡ ok (take 12 (drop 32 payload)))
      × (slice_from 44 payload ≡ ok (drop 44 payload))
unfolding slice slice_from
slices payload size = ground arith

from_slice_ok : (nonce : Bytes) → length nonce ≡ 12 → from_slice nonce ≡ ok nonce
unfolding from_slice
from_slice_ok nonce size = ground arith

byte_or_panic-ok : (content : Bytes) → 1 ≤ length content → (b : ℕ) × (byte_or_panic content ≡ ok b)
unfolding byte_or_panic
byte_or_panic-ok [] room = absurd (omega arith)
byte_or_panic-ok (b ∷ rest) room = (b, refl)

-- Behind a header of five bytes there is a payload of 92, or the version is refused.
versioned_payload_lem :
    (file : Bytes)
    → length file ≡ 97
    → (versioned_payload file ≡ ok (drop 5 file))
      ⊎ ((version : ℕ) × (versioned_payload file
            ≡ err (decryption_failed (unsupported_version version))))
unfolding versioned_payload index slice_from
versioned_payload_lem file size =
    let (version, e) = byte_or_panic-ok (drop 4 file) (omega (arith, length-drop 4 file)) in
    elim (Bool-cases (version == 1)) [
      | inl current ↦ inl (rw (versioned_payload, ◌>>=◌, e, current) (ground arith))
      | inr another ↦ inr (version, rw (versioned_payload, ◌>>=◌, e, another) refl)
    ]

module _ (crypto : FileCrypto) (law : IsFileCrypto crypto) where
  payload_of_current :
      (payload : Bytes)
      → length payload ≡ 92
      → payload_of crypto (magic ++ (1 ∷ payload)) ≡ ok payload
  unfolding payload_of bytes_eq versioned_payload index byte_or_panic slice_from
  payload_of_current payload size = ground arith

  payload_of_legacy :
      (payload : Bytes) → length payload ≡ 92 → payload_of crypto payload ≡ ok payload
  unfolding payload_of
  payload_of_legacy payload size = ground arith

  module _ (salt nonce secret passphrase key ciphertext : Bytes) (salt_size : length salt ≡ 32)
      (nonce_size : length nonce ≡ 12) (secret_size : length secret ≡ 32)
      (hashed : FileCrypto.hash_password crypto passphrase salt ≡ some key)
      (accepted : FileCrypto.key_accepted crypto key ≡ true)
      (size : length ciphertext ≡ length secret + 16)
      (opens : FileCrypto.decrypt crypto key nonce ciphertext ≡ some secret) where
    payload : Bytes
    payload = salt ++ (nonce ++ ciphertext)

    length-payload : length payload ≡ 92
    unfolding payload
    length-payload =
        omega (arith, length-append salt (nonce ++ ciphertext), length-append nonce ciphertext)

    decrypt_payload :
        (file_data : Bytes)
        → payload_of crypto file_data ≡ ok payload
        → decrypt crypto file_data passphrase ≡ ok secret
    unfolding decrypt payload
    decrypt_payload file_data chosen =
        let (first, second, third) = slices payload length-payload in
        let front = take_front 32 salt (nonce ++ ciphertext) salt_size in
        let behind = drop_front 32 salt (nonce ++ ciphertext) salt_size in
        let middle = take_front 12 nonce ciphertext nonce_size in
        let back =
          drop_front 44 (salt ++ nonce) ciphertext (omega (arith, length-append salt nonce)) in
        rw
          (
            chosen,
            first,
            second,
            third,
            front,
            behind,
            middle,
            ← append_assoc salt nonce ciphertext,
            back,
            hashed,
            accepted,
            from_slice_ok nonce nonce_size,
            opens,
          )
          (ground arith)

  -- The file of a 32-byte root secret, sealed with a 32-byte salt and a 12-byte nonce, has 97 bytes
  -- and decrypts to the secret under its passphrase; so does the legacy form of it, without the
  -- five bytes of the header.
  pub decrypt-seal :
      (salt nonce secret passphrase : Bytes)
      → length salt ≡ 32
      → length nonce ≡ 12
      → length secret ≡ 32
      → (file : Bytes) × (seal crypto salt nonce secret passphrase ≡ ok file)
        × (length file ≡ 97)
        × (decrypt crypto file passphrase ≡ ok secret)
        × (decrypt crypto (drop 5 file) passphrase ≡ ok secret)
  unfolding seal payload
  decrypt-seal salt nonce secret passphrase salt_size nonce_size secret_size =
      let (key, hashed, accepted) = law.derives passphrase salt salt_size in
      let (ciphertext, sealed, size, opens) = law.encrypts key nonce secret accepted nonce_size in
      let p = salt ++ (nonce ++ ciphertext) in
      let long =
        length-payload salt nonce secret passphrase key ciphertext salt_size nonce_size secret_size
          hashed accepted size opens in
      let same =
        decrypt_payload salt nonce secret passphrase key ciphertext salt_size nonce_size secret_size
          hashed accepted size opens in
      (
        magic ++ (1 ∷ p),
        ground arith,
        omega arith,
        same (magic ++ (1 ∷ p)) (payload_of_current p long),
        same p (payload_of_legacy p long),
      )

  payload_of_cases :
      (file : Bytes)
      → ((payload : Bytes) × (payload_of crypto file ≡ ok payload) × (length payload ≡ 92))
        ⊎ ((message : Message) × (payload_of crypto file ≡ err (decryption_failed message)))
  unfolding payload_of
  payload_of_cases file = elim (Bool-cases (length file == 97 && starts_with file magic)) [
    | inl current ↦ elim (versioned_payload_lem file (ground arith)) [
      | inl e ↦ inl (drop 5 file, ground arith, ground (arith, length-drop 5 file))
      | inr (version, e) ↦ inr (unsupported_version version, ground arith)
    ]
    | inr another ↦ elim (Bool-cases (length file == 92)) [
      | inl legacy ↦ inl (file, ground arith, ground arith)
      | inr wrong ↦ inr (invalid_length (length file), ground arith)
    ]
  ]

  -- The rest of `decrypt`, behind the key.
  open_key : Bytes → Bytes → Bytes → Result SignerError Bytes
  open_key key nonce_bytes ciphertext = do
    reject (not (FileCrypto.key_accepted crypto key)) (decryption_failed cipher_init)
    nonce ← from_slice nonce_bytes
    plaintext ←
        ok_or (FileCrypto.decrypt crypto key nonce ciphertext)
          (decryption_failed wrong_passphrase_or_corrupted)
    if length plaintext == secret_len then ok plaintext else err panicked

  open_key-ne-panicked :
      (key nonce ciphertext : Bytes)
      → length nonce ≡ 12
      → length ciphertext ≡ 48
      → open_key key nonce ciphertext ≢ err panicked
  unfolding open_key from_slice
  open_key-ne-panicked key nonce ciphertext nonce_size size h =
      elim (Option-cases (FileCrypto.decrypt crypto key nonce ciphertext)) [
        | inl refused ↦ absurd (ground arith)
        | inr (plaintext, opened) ↦
            absurd (ground (arith, law.decrypts key nonce ciphertext plaintext opened))
      ]

  -- Decryption never panics, whatever the file and the passphrase are: every slice it takes of the
  -- file is in range, the nonce has its 12 bytes, and the plaintext that is copied into the root
  -- secret has its length.
  pub decrypt-ne-panicked :
      (file passphrase : Bytes) → decrypt crypto file passphrase ≢ err panicked
  unfolding decrypt open_key
  decrypt-ne-panicked file passphrase h = elim (payload_of_cases file) [
    | inr (message, failed) ↦ absurd (let h' = rw (decrypt, ◌>>=◌, failed) at h in ground arith)
    | inl (payload, chosen, size) ↦
        let (first, second, third) = slices payload size in
        elim (Option-cases (FileCrypto.hash_password crypto passphrase (take 32 payload))) [
          | inl none_derived ↦ absurd (
              let h' = rw (decrypt, ◌>>=◌, chosen, first, second, third, none_derived) at h in
              ground arith)
          | inr (key, hashed) ↦
              open_key-ne-panicked key (take 12 (drop 32 payload)) (drop 44 payload)
                (length-take 12 (drop 32 payload) (omega (arith, length-drop 32 payload)))
                (omega (arith, length-drop 44 payload))
                (rw (decrypt, chosen, first, second, third, hashed) at h)
        ]
  ]
