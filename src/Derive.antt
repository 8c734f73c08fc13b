-- ===== src/Derive.antt =====
-- src/derive.rs: the HKDF key hierarchy. HKDF-SHA256 is a parameter: `extract salt ikm` gives the
-- pseudo-random key, and `expand prk info` its 32 bytes of output keying material, which for that
-- length cannot fail. Zeroizing memory is not modelled.
pub mod Purposes
pub mod Families
use styrene_identity.Prelude.{
  ℕ, List, [], ◌∷◌, ◌++◌, Result, ok, err, ◌>>=◌, ◌>>◌, reject, is_empty, Bytes, codes, be32,
}

pub data DeriveError : Type 0 where
  empty_label : DeriveError

unfoldable pub validate_label : Bytes → Result DeriveError (Unit {0})
validate_label label = do reject (is_empty label) empty_label; ok tt

abbrev pub hkdf_salt : Bytes
hkdf_salt = codes "styrene-identity-v1"

abbrev pub hkdf_salt_agent : Bytes
hkdf_salt_agent = codes "styrene-identity-agent-v1"

abbrev pub hkdf_salt_tls_cert : Bytes
hkdf_salt_tls_cert = codes "styrene-identity-tls-cert-v1"

abbrev pub hkdf_salt_ssh_user : Bytes
hkdf_salt_ssh_user = codes "styrene-identity-ssh-user-v1"

abbrev pub hkdf_salt_i2p_service : Bytes
hkdf_salt_i2p_service = codes "styrene-identity-i2p-service-v1"

abbrev pub hkdf_salt_onion_service : Bytes
hkdf_salt_onion_service = codes "styrene-identity-onion-service-v1"

abbrev pub hkdf_salt_repository_signing : Bytes
hkdf_salt_repository_signing = codes "styrene-identity-repository-signing-v1"

pub data KeyPurpose : Type 0 where
  signing rns_encryption age wire_guard ssh_host yggdrasil : KeyPurpose
  i2p_signing i2p_encryption tor rns_signing git_signing : KeyPurpose

unfoldable pub info : KeyPurpose → Bytes
info signing = codes "styrene-rns-signing-v1"
info rns_encryption = codes "styrene-rns-encryption-v1"
info age = codes "styrene-age-v1"
info wire_guard = codes "styrene-wireguard-v1"
info ssh_host = codes "styrene-ssh-host-v1"
info yggdrasil = codes "styrene-yggdrasil-v1"
info i2p_signing = codes "styrene-i2p-signing-v1"
info i2p_encryption = codes "styrene-i2p-encryption-v1"
info tor = codes "styrene-tor-v1"
info rns_signing = codes "styrene-rns-signing-v1"
info git_signing = codes "styrene-rns-signing-v1"

-- `KeyPurpose::all`
unfoldable pub all_purposes : List KeyPurpose
all_purposes =
    signing ∷ rns_encryption ∷ age ∷ wire_guard ∷ ssh_host ∷ yggdrasil ∷ i2p_signing
    ∷ i2p_encryption ∷ tor ∷ []

pub record Hkdf : Type 0 where
  pub extract : Bytes → Bytes → Bytes
  pub expand : Bytes → Bytes → Bytes

pub record KeyDeriver : Type 0 where
  pub prk : Bytes

pub record DerivedKeys : Type 0 where
  pub signing_key : Bytes
  pub rns_encryption_key : Bytes
  pub age_key : Bytes
  pub wireguard_key : Bytes
  pub ssh_host_key : Bytes
  pub yggdrasil_key : Bytes
  pub i2p_signing_key : Bytes
  pub i2p_encryption_key : Bytes
  pub tor_key : Bytes

module _ (hkdf : Hkdf) where
  -- `KeyDeriver::new`
  unfoldable pub new : Bytes → KeyDeriver
  new root_secret = record { prk = Hkdf.extract hkdf hkdf_salt root_secret }

  unfoldable pub derive : KeyDeriver → KeyPurpose → Bytes
  derive self purpose = Hkdf.expand hkdf self.prk (info purpose)

  unfoldable pub derive_all : KeyDeriver → DerivedKeys
  unfolding derive
  derive_all self = record {
    signing_key = derive self signing;
    rns_encryption_key = derive self rns_encryption;
    age_key = derive self age;
    wireguard_key = derive self wire_guard;
    ssh_host_key = derive self ssh_host;
    yggdrasil_key = derive self yggdrasil;
    i2p_signing_key = derive self i2p_signing;
    i2p_encryption_key = derive self i2p_encryption;
    tor_key = derive self tor;
  }

  unfoldable pub signing_seed : KeyDeriver → Bytes
  signing_seed self = derive self signing

  unfoldable pub ssh_host_seed : KeyDeriver → Bytes
  ssh_host_seed self = derive self ssh_host

  unfoldable pub age_secret : KeyDeriver → Bytes
  age_secret self = derive self age

  unfoldable pub git_signing_seed : KeyDeriver → Bytes
  git_signing_seed self = derive self signing

  unfoldable pub i2p_signing_seed : KeyDeriver → Bytes
  i2p_signing_seed self = derive self i2p_signing

  unfoldable pub i2p_encryption_secret : KeyDeriver → Bytes
  i2p_encryption_secret self = derive self i2p_encryption

  unfoldable pub tor_seed : KeyDeriver → Bytes
  tor_seed self = derive self tor

  unfoldable pub derive_parameterized :
      KeyDeriver → Bytes → Bytes → Bytes → Result DeriveError Bytes
  derive_parameterized self master_info level2_salt label = do
    reject (is_empty label) empty_label
    let master = Hkdf.expand hkdf self.prk master_info
    let hk2 = Hkdf.extract hkdf level2_salt master
    ok (Hkdf.expand hkdf hk2 label)

  unfoldable pub derive_agent_key : KeyDeriver → Bytes → Result DeriveError Bytes
  derive_agent_key self agent_name =
      derive_parameterized self (codes "styrene-agent-master-v1") hkdf_salt_agent agent_name

  unfoldable pub derive_tls_certificate_key : KeyDeriver → Bytes → Result DeriveError Bytes
  derive_tls_certificate_key self cert_label =
      derive_parameterized self (codes "styrene-tls-cert-master-v1") hkdf_salt_tls_cert cert_label

  unfoldable pub derive_ssh_user_key : KeyDeriver → Bytes → Result DeriveError Bytes
  derive_ssh_user_key self label =
      derive_parameterized self (codes "styrene-ssh-user-master-v1") hkdf_salt_ssh_user label

  unfoldable pub derive_i2p_service : KeyDeriver → Bytes → Result DeriveError (Bytes × Bytes)
  derive_i2p_service self service_name = do
    reject (is_empty service_name) empty_label
    signing_part ←
        derive_parameterized self (codes "styrene-i2p-service-master-v1") hkdf_salt_i2p_service
          (service_name ++ codes "/signing")
    encryption_part ←
        derive_parameterized self (codes "styrene-i2p-service-master-v1") hkdf_salt_i2p_service
          (service_name ++ codes "/encryption")
    ok (signing_part, encryption_part)

  unfoldable pub derive_onion_service : KeyDeriver → Bytes → Result DeriveError Bytes
  derive_onion_service self service_name =
      derive_parameterized self (codes "styrene-onion-master-v1") hkdf_salt_onion_service
        service_name

  unfoldable pub derive_repository_signing_key : KeyDeriver → ℕ → Bytes
  derive_repository_signing_key self epoch =
      let master = Hkdf.expand hkdf self.prk (codes "styrene-repository-signing-master-v1") in
      let hk2 = Hkdf.extract hkdf hkdf_salt_repository_signing master in
      Hkdf.expand hkdf hk2 ((codes "styrene-repository-signing-epoch-v1" ++ (0 ∷ [])) ++ be32 epoch)

  unfoldable pub derive_key : Bytes → KeyPurpose → Bytes
  unfolding new
  derive_key root_secret purpose = derive (new root_secret) purpose

  unfoldable pub derive_keys : Bytes → DerivedKeys
  unfolding new
  derive_keys root_secret = derive_all (new root_secret)
