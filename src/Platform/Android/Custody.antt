-- ===== src/Platform/Android/Custody.antt =====
-- src/android_keystore_signer.rs: no secret that the store has not given back, and none replaced.
use styrene_identity.Prelude.{
  ◌≡◌, ◌≢◌, ◌⊎◌, inl, inr, refl, sym, ap, ◌∙◌, Bool-cases, Result-cases, ok, err, ok-injective,
  ==_iff, ◌==◌, length, Bytes, bytes_eq, bytes_eq_iff, arith,
}
use styrene_identity.FileSigner.{SignerError, unavailable, text}
use styrene_identity.Platform.Store.{◌>>=◌, lift, map_err, attempt}
use styrene_identity.Platform.Android.{
  KeyringError, no_entry, no_storage_access, other, Entry, decode_root_secret, map_storage_error,
  store_verified, load_or_create, load_or_create_root_secret, existence, exists,
  restore_root_secret,
}

module _ {S : Type 0} (entry : Entry S) where
  -- A store that succeeds has given back what was put in.
  store_verified-ok :
      (secret : Bytes) (s : S)
      → (store_verified entry secret s).0 ≡ ok tt
      → ((entry.set_secret secret s).0 ≡ ok tt)
        × ((entry.get_secret (entry.set_secret secret s).1).0 ≡ ok secret)
  unfolding store_verified
  store_verified-ok secret s h = elim (Result-cases (entry.set_secret secret s).0) [
    | inr (why, e) ↦ absurd (let h' = rw (e, ◌>>=◌, map_err) at h in ground arith)
    | inl (_, e) ↦ elim (Result-cases (entry.get_secret (entry.set_secret secret s).1).0) [
      | inr (why, g) ↦ absurd (ground arith)
      | inl (persisted, g) ↦ elim (Bool-cases (bytes_eq secret persisted)) [
        | inl same ↦ (e, g ∙ ap ok (sym ((bytes_eq_iff secret persisted).0 same)))
        | inr differ ↦ absurd (ground arith)
      ]
    ]
  ]

  decode-ok :
      (secret root : Bytes)
      → decode_root_secret secret ≡ ok root
      → (secret ≡ root) × (length root ≡ 32)
  unfolding decode_root_secret
  decode-ok secret root h = elim (Bool-cases (length secret == 32)) [
    | inr differ ↦ absurd (let h' = rw differ at h in ground arith)
    | inl size ↦
        let same = ok-injective (rw size at h) in
        (same, ap length (sym same) ∙ (==_iff (length secret) 32).0 size)
  ]

  created-ok :
      (drawn root : Bytes) (why : KeyringError) (s : S)
      → (load_or_create entry drawn (err why) s).0 ≡ ok root
      → (why ≡ no_entry)
        × (root ≡ drawn)
        × ((entry.set_secret drawn s).0 ≡ ok tt)
        × ((entry.get_secret (entry.set_secret drawn s).1).0 ≡ ok drawn)
  unfolding load_or_create
  created-ok drawn root no_storage_access s h = absurd (ground arith)
  created-ok drawn root other s h = absurd (ground arith)
  created-ok drawn root no_entry s h = elim (Result-cases (store_verified entry drawn s).0) [
    | inr (why, e) ↦ absurd (let h' = rw (e, ◌>>=◌) at h in ground arith)
    | inl (_, e) ↦
        let (put, got) = store_verified-ok drawn s e in
        (refl, sym (ok-injective (rw (e, ◌>>=◌, lift) at h)), put, got)
  ]

  -- The secret that the signer uses is one that the store holds: the one found there, of 32 bytes,
  -- or, where the store had no entry, the drawn one, which the store took and gave back.
  pub load_or_create_root_secret-ok :
      (drawn root : Bytes) (s : S)
      → (load_or_create_root_secret entry drawn s).0 ≡ ok root
      → (((entry.get_secret s).0 ≡ ok root) × (length root ≡ 32))
        ⊎ (((entry.get_secret s).0 ≡ err no_entry)
            × (root ≡ drawn)
            × ((entry.set_secret drawn (entry.get_secret s).1).0 ≡ ok tt)
            × ((entry.get_secret (entry.set_secret drawn (entry.get_secret s).1).1).0 ≡ ok drawn))
  unfolding load_or_create_root_secret load_or_create
  load_or_create_root_secret-ok drawn root s h = elim (Result-cases (entry.get_secret s).0) [
    | inl (secret, e) ↦
        let (same, size) = decode-ok secret root (rw e at h) in inl (e ∙ ap ok same, size)
    | inr (why, e) ↦
        let (absent, same, put, got) =
          created-ok drawn root why (entry.get_secret s).1 (rw e at h) in
        inr (e ∙ ap err absent, same, put, got)
  ]

  -- Restoring stores nothing unless the store said that it has no entry: where it gave a secret or
  -- any other error, restoring fails and leaves the store as that question left it.
  pub restore_root_secret-refused :
      (secret : Bytes) (s : S)
      → (entry.get_secret s).0 ≢ err no_entry
      → (why : SignerError) × (restore_root_secret entry secret s
          ≡ (err why, (entry.get_secret s).1))
  unfolding restore_root_secret exists existence
  restore_root_secret-refused secret s ne = elim (Result-cases (entry.get_secret s).0) [
    | inl (old, e) ↦ (
      unavailable (text "Identity already exists in Android Keystore"),
      rw (e, ◌>>=◌, attempt, lift) refl,
    )
    | inr (no_entry, e) ↦ absurd (ne e)
    | inr (no_storage_access, e) ↦
        (map_storage_error no_storage_access, rw (e, ◌>>=◌, attempt, lift) refl)
    | inr (other, e) ↦ (map_storage_error other, rw (e, ◌>>=◌, attempt, lift) refl)
  ]
