-- ===== src/Platform/YubiKey/Root.antt =====
-- src/yubikey_signer.rs: where a root secret comes from.
use styrene_identity.Prelude.{
  ◌≡◌, refl, sym, ap, ◌∙◌, Bool, true, false, Option, inl, inr, none, some, ok, ok_or, >>=-eq-ok,
  ok-injective, List, [], ◌∷◌, Member, Bytes, arith,
}
use styrene_identity.Platform.YubiKey.{
  Extension, hmac_secret, other_extension, Assertion, GetAssertionArgs, Device, Base64,
  YubiKeySigner, first_hmac_secret, first_assertion, waives_verification, styrene_identity_salt,
  derive_root, root_secret,
}

ok_or-eq-ok : {E A : Type 0} (o : Option A) (e : E) {a : A} → ok_or o e ≡ ok a → o ≡ some a
ok_or-eq-ok none e h = cc
ok_or-eq-ok (some b) e h = ap some (ok-injective h)

first_hmac_secret-Member :
    (xs : List Extension) {output : Bytes}
    → first_hmac_secret xs ≡ ok output
    → Member (hmac_secret (some output)) xs
unfolding first_hmac_secret
first_hmac_secret-Member [] h = absurd (ground arith)
first_hmac_secret-Member (hmac_secret (some output) ∷ rest) h =
    inl (ap (λ b. hmac_secret (some b)) (sym (ok-injective h)))
first_hmac_secret-Member (hmac_secret none ∷ rest) h = inr (first_hmac_secret-Member rest h)
first_hmac_secret-Member (other_extension ∷ rest) h = inr (first_hmac_secret-Member rest h)

first_assertion-eq-ok :
    (xs : List Assertion) {a : Assertion}
    → first_assertion xs ≡ ok a
    → (rest : List Assertion) × (xs ≡ a ∷ rest)
unfolding first_assertion
first_assertion-eq-ok [] h = absurd (ground arith)
first_assertion-eq-ok (x ∷ xs) h = (xs, ap (λ b. b ∷ xs) (ok-injective h))

waiver :
    (pin : Option Bytes) (require_touch : Bool)
    → waives_verification pin require_touch ≡ true
    → (pin ≡ none) × (require_touch ≡ false)
unfolding waives_verification
waiver none false h = (refl, refl)
waiver none true h = absurd (ground arith)
waiver (some _) require_touch h = absurd (ground arith)

module _ (base64 : Base64) (sha256 : Bytes → Bytes) (connected : Option Device)
    (self : YubiKeySigner) where
  args_of : Bytes → Option Bytes → Bytes → GetAssertionArgs
  args_of id pin challenge = record {
    rp_id = self.rp_id;
    challenge = challenge;
    credential_id = id;
    salt = styrene_identity_salt base64 sha256 connected;
    pin = pin;
    without_pin_and_uv = waives_verification pin self.require_touch;
  }

  -- A root secret is an hmac-secret output of the first assertion that the connected device gave,
  -- for the signer's own credential and relying party, under the salt of this program, with the
  -- provider's PIN; user verification is waived only without a PIN and where touch is not required.
  pub root_secret-ok :
      (challenge : Bytes) {root : Bytes}
      → root_secret base64 sha256 connected self challenge ≡ ok root
      → (device : Device) × (args : GetAssertionArgs) × (assertion : Assertion) × (rest : List
          Assertion)
        × (connected ≡ some device)
        × (device.get_assertion_with_args args ≡ some (assertion ∷ rest))
        × Member (hmac_secret (some root)) assertion.extensions
        × (base64.decode self.credential_id_b64 ≡ some args.credential_id)
        × (args.rp_id ≡ self.rp_id)
        × (args.salt ≡ styrene_identity_salt base64 sha256 connected)
        × (self.pin_provider ≡ ok args.pin)
        × (args.without_pin_and_uv ≡ true → (args.pin ≡ none) × (self.require_touch ≡ false))
  unfolding root_secret derive_root args_of
  root_secret-ok challenge h =
      let (pin, given, h1) = >>=-eq-ok self.pin_provider _ h in
      let (device, there, h2) = >>=-eq-ok (ok_or connected _) _ h1 in
      let (id, read, h3) = >>=-eq-ok (ok_or (base64.decode self.credential_id_b64) _) _ h2 in
      let (assertions, answered, h4) =
        >>=-eq-ok (ok_or (device.get_assertion_with_args (args_of id pin challenge)) _) _ h3 in
      let (assertion, first, h5) = >>=-eq-ok (first_assertion assertions) _ h4 in
      let (rest, listed) = first_assertion-eq-ok assertions first in
      (
        device,
        args_of id pin challenge,
        assertion,
        rest,
        ok_or-eq-ok connected _ there,
        ok_or-eq-ok (device.get_assertion_with_args (args_of id pin challenge)) _ answered
            ∙ ap some listed,
        first_hmac_secret-Member assertion.extensions h5,
        ok_or-eq-ok (base64.decode self.credential_id_b64) _ read,
        refl,
        refl,
        given,
        λ waived. waiver pin self.require_touch waived,
      )
