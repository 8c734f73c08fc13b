-- ===== src/Pki/Names.antt =====
-- src/pki.rs: the normalisation of subject alternative names. Reading and printing an `IpAddr` is a
-- parameter, and so is the text that `rcgen` accepts as a DNS name.
pub mod Canonical
pub mod Members
pub mod Same
use styrene_identity.Prelude.{
  Bool, true, false, Option, none, some, Result, ok, err, ◌>>=◌, List, [], ◌∷◌, ◌++◌, ◌≡◌,
  if◌then◌else◌, is_empty, Bytes, bytes_eq, bytes_lt, codes,
}
use styrene_identity.Pki.Utf8.{trim, to_ascii_lowercase}
use styrene_identity.Pki.Profile.{StyrenePkiError, certificate}

-- An address is its 4 or 16 bytes; `to_ia5` is `try_into` of a DNS name or URI, which keeps its text.
pub record NameText (Error : Type 0) : Type 0 where
  pub parse_ip : Bytes → Option Bytes
  pub display_ip : Bytes → Bytes
  pub to_ia5 : Bytes → Result Error Bytes

pub data SanType : Type 0 where
  ip_address dns_name uri : Bytes → SanType

pub record San : Type 0 where
  pub serial_part : Bytes
  pub name : SanType

-- `sort_by` on the serial parts: an element goes before the later ones that are not less.
unfoldable pub insert_san : San → List San → List San
insert_san x [] = x ∷ []
insert_san x (y ∷ ys) =
    let rest = insert_san x ys in
    if bytes_lt y.serial_part x.serial_part then y ∷ rest else x ∷ y ∷ ys

unfoldable pub sort_sans : List San → List San
sort_sans [] = []
sort_sans (x ∷ xs) = insert_san x (sort_sans xs)

-- `dedup_by` on the serial parts: of equal neighbours the first stays.
unfoldable pub dedup_from : San → List San → List San
dedup_from x [] = x ∷ []
dedup_from x (y ∷ ys) =
    let kept = if bytes_eq y.serial_part x.serial_part then x else y in
    let rest = dedup_from kept ys in if bytes_eq y.serial_part x.serial_part then rest else x ∷ rest

unfoldable pub dedup_sans : List San → List San
dedup_sans [] = []
dedup_sans (x ∷ xs) = dedup_from x xs

module _ {Error : Type 0} (text : NameText Error) where
  -- The entry of one trimmed name.
  unfoldable pub normalize_name : Bytes → Result (StyrenePkiError Error) San
  normalize_name subject_alt_name = elim (NameText.parse_ip text subject_alt_name) [
    | some ip_addr ↦ ok (record {
      serial_part = codes "ip:" ++ NameText.display_ip text ip_addr;
      name = ip_address ip_addr;
    })
    | none ↦
        let lower = to_ascii_lowercase subject_alt_name in
        elim (NameText.to_ia5 text lower) [
          | err why ↦ err (certificate why)
          | ok dns ↦ ok (record { serial_part = codes "dns:" ++ lower; name = dns_name dns })
        ]
  ]

  -- The loop over the names, whose entries are pushed in their order.
  unfoldable pub normalize_each : List Bytes → Result (StyrenePkiError Error) (List San)
  normalize_each [] = ok []
  normalize_each (subject_alt_name ∷ more) =
      let trimmed = trim subject_alt_name in
      let rest = normalize_each more in
      if is_empty trimmed
      then rest
      else (do entry ← normalize_name trimmed; entries ← rest; ok (entry ∷ entries))

  unfoldable pub normalize_subject_alt_names :
      List Bytes → Result (StyrenePkiError Error) (List San)
  normalize_subject_alt_names subject_alt_names = do
    normalized ← normalize_each subject_alt_names
    ok (dedup_sans (sort_sans normalized))
