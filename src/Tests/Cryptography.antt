-- ===== src/Tests/Cryptography.antt =====
-- Small functions with the sizes and laws of the primitives, which keep nothing secret.
use styrene_identity.Prelude.{
  ℕ, zero, suc, ◌+◌, ◌-◌, ◌≤◌, ◌≡◌, refl, true, false, ◌&&◌, none, some, [], ◌∷◌, ◌++◌,
  if◌then◌else◌, leb, ◌==◌, length, take, drop, length-append, length-take, take_front, drop_front,
  Bytes, bytes_eq, bytes_eq_iff, arith,
}
use styrene_identity.External.Ed25519.{Ed25519, IsEd25519}
use styrene_identity.Derive.{Hkdf}
use styrene_identity.FileSigner.{FileCrypto}
use styrene_identity.FileSigner.RoundTrip.{IsFileCrypto}

-- The first n bytes, filled up with zeros.
abbrev pub fit : ℕ → Bytes → Bytes
fit zero bytes = []
fit (suc n) [] = 0 ∷ fit n []
fit (suc n) (x ∷ xs) = x ∷ fit n xs

pub length-fit : (n : ℕ) (bytes : Bytes) → length (fit n bytes) ≡ n
length-fit zero bytes = refl
length-fit (suc n) [] = let h = length-fit n [] in omega arith
length-fit (suc n) (x ∷ xs) = let h = length-fit n xs in omega arith

abbrev pub hash : Bytes → Bytes
hash bytes = fit 32 bytes

pub hash_size : (bytes : Bytes) → length (hash bytes) ≡ 32
hash_size bytes = length-fit 32 bytes

abbrev pub hkdf : Hkdf
hkdf = record {
  extract = λ salt material. salt ++ material;
  expand = λ prk info. fit 32 (info ++ prk);
}

abbrev signature_of : Bytes → Bytes → Bytes
signature_of key message = key ++ fit 32 message

abbrev pub ed25519 : Ed25519
ed25519 = record {
  verifying_key = λ seed. fit 32 seed;
  sign = λ seed message. signature_of (fit 32 seed) message;
  is_point = λ key. length key == 32;
  is_weak = λ key. false;
  verify = λ key message sig. bytes_eq sig (signature_of key message);
  verify_strict = λ key message sig. bytes_eq sig (signature_of key message);
}

signs :
    (seed message : Bytes)
    → bytes_eq (signature_of (fit 32 seed) message) (signature_of (fit 32 seed) message) ≡ true
signs seed message =
    (bytes_eq_iff (signature_of (fit 32 seed) message) (signature_of (fit 32 seed) message)).1 refl

point : (seed : Bytes) → (length (fit 32 seed) == 32) ≡ true
point seed = let h = length-fit 32 seed in ground arith

pub ed25519-IsEd25519 : IsEd25519 ed25519
ed25519-IsEd25519 = record {
  key_size = λ seed. length-fit 32 seed;
  signature_size = λ seed message. omega (
    arith,
    length-append (fit 32 seed) (fit 32 message),
    length-fit 32 seed,
    length-fit 32 message,
  );
  key_point = point;
  key_strong = λ seed. refl;
  verify-sign = signs;
  verify_strict-sign = signs;
}

-- The ciphertext is the plaintext and a tag made of the key.
abbrev pub crypto : FileCrypto
crypto = record {
  hash_password = λ passphrase salt. some (fit 32 (passphrase ++ salt));
  key_accepted = λ key. length key == 32;
  encrypt = λ key nonce plaintext. some (plaintext ++ fit 16 key);
  decrypt = λ key nonce ciphertext.
      let n = length ciphertext - 16 in
      if leb 16 (length ciphertext) && bytes_eq (drop n ciphertext) (fit 16 key)
      then some (take n ciphertext)
      else none;
}

opens :
    (key nonce plaintext : Bytes)
    → FileCrypto.decrypt crypto key nonce (plaintext ++ fit 16 key) ≡ some plaintext
opens key nonce plaintext =
    let tag = fit 16 key in
    let all_of = length-append plaintext tag in
    let size = length-fit 16 key in
    let n = length (plaintext ++ tag) - 16 in
    let short : length plaintext ≡ n = omega arith in
    ground (
      arith,
      take_front n plaintext tag short,
      drop_front n plaintext tag short,
      bytes_eq_iff tag tag,
    )

shorter :
    (key nonce ciphertext plaintext : Bytes)
    → FileCrypto.decrypt crypto key nonce ciphertext ≡ some plaintext
    → length ciphertext ≡ length plaintext + 16
shorter key nonce ciphertext plaintext h =
    let long : length ciphertext - 16 ≤ length ciphertext = omega arith in
    ground (arith, length-take (length ciphertext - 16) ciphertext long)

pub crypto-IsFileCrypto : IsFileCrypto crypto
crypto-IsFileCrypto = record {
  derives = λ passphrase salt size. (fit 32 (passphrase ++ salt), refl, point (passphrase ++ salt));
  encrypts = λ key nonce plaintext accepted size. (
    plaintext ++ fit 16 key,
    refl,
    omega (arith, length-append plaintext (fit 16 key), length-fit 16 key),
    opens key nonce plaintext,
  );
  decrypts = shorter;
}
