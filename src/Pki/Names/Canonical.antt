-- ===== src/Pki/Names/Canonical.antt =====
-- src/pki.rs: sorting entries and leaving out repeated ones gives a list in strict order.
use styrene_identity.Prelude.{
  ◌≡◌, inl, inr, refl, Bool-cases, true, false, List, [], ◌∷◌, All, Bytes, bytes_eq, bytes_eq_iff,
  bytes_lt, bytes_lt_irrefl, bytes_lt_trans, arith,
}
use styrene_identity.Pki.Names.{San, insert_san, sort_sans, dedup_from, dedup_sans}

bytes_lt_total :
    (xs ys : Bytes) → bytes_lt xs ys ≡ false → bytes_eq xs ys ≡ false → bytes_lt ys xs ≡ true
unfolding bytes_lt bytes_eq
bytes_lt_total [] [] h k = cc
bytes_lt_total [] (y ∷ ys) h k = cc
bytes_lt_total (x ∷ xs) [] h k = refl
bytes_lt_total (x ∷ xs) (y ∷ ys) h k = ground (arith, bytes_lt_total xs ys)

-- A key that is not below another is not below what the other is not below.
not_lt_trans : (x y z : Bytes) → bytes_lt y x ≡ false → bytes_lt z y ≡ false → bytes_lt z x ≡ false
not_lt_trans x y z h k = elim (Bool-cases (bytes_lt z x)) [
  | inr below ↦ below
  | inl above ↦ elim (Bool-cases (bytes_eq z y)) [
    | inl same ↦ absurd (let above' = rw ((bytes_eq_iff z y).0 same) at above in cc)
    | inr differ ↦ absurd (let up = bytes_lt_trans y z x (bytes_lt_total z y k differ) above in cc)
  ]
]

lt_asym : (x y : Bytes) → bytes_lt x y ≡ true → bytes_lt y x ≡ false
lt_asym x y h = elim (Bool-cases (bytes_lt y x)) [
  | inr below ↦ below
  | inl above ↦
      absurd (let loop = bytes_lt_trans x y x h above in let none = bytes_lt_irrefl x in cc)
]

abbrev NotBelow : San → San → Type 0
NotBelow x y = bytes_lt y.serial_part x.serial_part ≡ false

abbrev Below : San → San → Type 0
Below x y = bytes_lt x.serial_part y.serial_part ≡ true

abbrev IsSorted : List San → Type 0
IsSorted [] = Unit
IsSorted (x ∷ xs) = All (NotBelow x) xs × IsSorted xs

-- The serial parts strictly ascend.
abbrev pub IsStrict : List San → Type 0
IsStrict [] = Unit
IsStrict (x ∷ xs) = All (Below x) xs × IsStrict xs

All-insert_san :
    (P : San → Type 0) (x : San) (xs : List San) → P x → All P xs → All P (insert_san x xs)
unfolding insert_san
All-insert_san P x [] px h = (px, tt)
All-insert_san P x (y ∷ ys) px (py, h) = elim (Bool-cases (bytes_lt y.serial_part x.serial_part)) [
  | inl above ↦ rw above (py, All-insert_san P x ys px h)
  | inr below ↦ rw below (px, (py, h))
]

All-weaken : (P Q : San → Type 0) (xs : List San) → ((a : San) → P a → Q a) → All P xs → All Q xs
All-weaken P Q [] f h = tt
All-weaken P Q (x ∷ xs) f (here, h) = (f x here, All-weaken P Q xs f h)

insert_san-IsSorted : (x : San) (xs : List San) → IsSorted xs → IsSorted (insert_san x xs)
unfolding insert_san
insert_san-IsSorted x [] h = (tt, tt)
insert_san-IsSorted x (y ∷ ys) (least, h) =
    elim (Bool-cases (bytes_lt y.serial_part x.serial_part)) [
      | inl above ↦ rw above (
        All-insert_san (NotBelow y) x ys (lt_asym y.serial_part x.serial_part above) least,
        insert_san-IsSorted x ys h,
      )
      | inr below ↦ rw below (
        (
          below,
          All-weaken (NotBelow y) (NotBelow x) ys
              (λ z k. not_lt_trans x.serial_part y.serial_part z.serial_part below k) least,
        ),
        (least, h),
      )
    ]

sort_sans-IsSorted : (xs : List San) → IsSorted (sort_sans xs)
unfolding sort_sans
sort_sans-IsSorted [] = tt
sort_sans-IsSorted (x ∷ xs) = insert_san-IsSorted x (sort_sans xs) (sort_sans-IsSorted xs)

-- What holds of the entries holds of those that stay.
All-dedup_from :
    (P : San → Type 0) (x : San) (xs : List San) → P x → All P xs → All P (dedup_from x xs)
unfolding dedup_from
All-dedup_from P x [] px h = (px, tt)
All-dedup_from P x (y ∷ ys) px (py, h) = elim (Bool-cases (bytes_eq y.serial_part x.serial_part)) [
  | inl same ↦ rw same (All-dedup_from P x ys px h)
  | inr differ ↦ rw differ (px, All-dedup_from P y ys py h)
]

-- An entry that is below the first of a sorted list is below them all.
Below-all : (x y : San) (ys : List San) → Below x y → All (NotBelow y) ys → All (Below x) ys
Below-all x y ys h = All-weaken (NotBelow y) (Below x) ys λ z k.
    elim (Bool-cases (bytes_eq z.serial_part y.serial_part)) [
      | inl same ↦ rw ((bytes_eq_iff z.serial_part y.serial_part).0 same) h
      | inr differ ↦
          bytes_lt_trans x.serial_part y.serial_part z.serial_part h
            (bytes_lt_total z.serial_part y.serial_part k differ)
    ]

dedup_from-IsStrict :
    (x : San) (xs : List San) → All (NotBelow x) xs → IsSorted xs → IsStrict (dedup_from x xs)
unfolding dedup_from
dedup_from-IsStrict x [] least h = (tt, tt)
dedup_from-IsStrict x (y ∷ ys) (here, least) (least', h) =
    elim (Bool-cases (bytes_eq y.serial_part x.serial_part)) [
      | inl same ↦ rw same (dedup_from-IsStrict x ys least h)
      | inr differ ↦
          let first = bytes_lt_total y.serial_part x.serial_part here differ in
          rw differ (
            All-dedup_from (Below x) y ys first (Below-all x y ys first least'),
            dedup_from-IsStrict y ys least' h,
          )
    ]

dedup_sans-IsStrict : (xs : List San) → IsSorted xs → IsStrict (dedup_sans xs)
unfolding dedup_sans
dedup_sans-IsStrict [] h = tt
dedup_sans-IsStrict (x ∷ xs) (least, h) = dedup_from-IsStrict x xs least h

pub dedup_sort-IsStrict : (xs : List San) → IsStrict (dedup_sans (sort_sans xs))
dedup_sort-IsStrict xs = dedup_sans-IsStrict (sort_sans xs) (sort_sans-IsSorted xs)
