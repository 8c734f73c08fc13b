-- ===== src/Pki/Names/Members.antt =====
-- src/pki.rs: sorting and leaving out repeated entries keeps the set of entries.
use styrene_identity.Prelude.{
  ◌≡◌, ◌≢◌, inl, inr, refl, sym, ◌∙◌, Bool-cases, true, List, [], ◌∷◌, Member, All-elim, bytes_eq,
  bytes_eq_iff, bytes_lt, bytes_lt_irrefl, bytes_lt_trans,
}
use styrene_identity.Pki.Names.{San, insert_san, sort_sans, dedup_from, dedup_sans}
use styrene_identity.Pki.Names.Canonical.{IsStrict}

Member-insert_san : (a x : San) (xs : List San) → Member a (insert_san x xs) → Member a (x ∷ xs)
unfolding insert_san
Member-insert_san a x [] m = m
Member-insert_san a x (y ∷ ys) m = elim (Bool-cases (bytes_lt y.serial_part x.serial_part)) [
  | inl above ↦ elim (rw above at m) [
    | inl e ↦ inr (inl e)
    | inr later ↦ elim (Member-insert_san a x ys later) [ inl e ↦ inl e | inr old ↦ inr (inr old) ]
  ]
  | inr below ↦ rw below at m
]

insert_san-Member : (a x : San) (xs : List San) → Member a (x ∷ xs) → Member a (insert_san x xs)
unfolding insert_san
insert_san-Member a x [] m = m
insert_san-Member a x (y ∷ ys) m = elim (Bool-cases (bytes_lt y.serial_part x.serial_part)) [
  | inr below ↦ rw below m
  | inl above ↦ rw above (elim m [
    | inl e ↦ inr (insert_san-Member a x ys (inl e))
    | inr (inl e) ↦ inl e
    | inr (inr old) ↦ inr (insert_san-Member a x ys (inr old))
  ])
]

Member-sort_sans : (a : San) (xs : List San) → Member a (sort_sans xs) → Member a xs
unfolding sort_sans
Member-sort_sans a [] m = m
Member-sort_sans a (x ∷ xs) m = elim (Member-insert_san a x (sort_sans xs) m) [
  | inl e ↦ inl e
  | inr old ↦ inr (Member-sort_sans a xs old)
]

sort_sans-Member : (a : San) (xs : List San) → Member a xs → Member a (sort_sans xs)
unfolding sort_sans
sort_sans-Member a [] m = m
sort_sans-Member a (x ∷ xs) (inl e) = insert_san-Member a x (sort_sans xs) (inl e)
sort_sans-Member a (x ∷ xs) (inr m) =
    insert_san-Member a x (sort_sans xs) (inr (sort_sans-Member a xs m))

Member-dedup_from : (a x : San) (xs : List San) → Member a (dedup_from x xs) → Member a (x ∷ xs)
unfolding dedup_from
Member-dedup_from a x [] m = m
Member-dedup_from a x (y ∷ ys) m = elim (Bool-cases (bytes_eq y.serial_part x.serial_part)) [
  | inl same ↦ elim (Member-dedup_from a x ys (rw same at m)) [
    | inl e ↦ inl e
    | inr old ↦ inr (inr old)
  ]
  | inr differ ↦ elim (rw differ at m) [
    | inl e ↦ inl e
    | inr later ↦ inr (Member-dedup_from a y ys later)
  ]
]

-- Among entries that their serial part determines, none is lost.
abbrev pub IsKeyed : List San → Type 0
IsKeyed xs = (a b : San) → Member a xs → Member b xs → a.serial_part ≡ b.serial_part → a ≡ b

widen : (b x y : San) (ys : List San) → Member b (x ∷ ys) → Member b (x ∷ (y ∷ ys))
widen b x y ys (inl e) = inl e
widen b x y ys (inr m) = inr (inr m)

dedup_from-Member :
    (a x : San) (xs : List San) → IsKeyed (x ∷ xs) → Member a (x ∷ xs) → Member a (dedup_from x xs)
unfolding dedup_from
dedup_from-Member a x [] keyed m = m
dedup_from-Member a x (y ∷ ys) keyed m = elim (Bool-cases (bytes_eq y.serial_part x.serial_part)) [
  | inl same ↦
      let e =
        keyed y x (inr (inl refl)) (inl refl) ((bytes_eq_iff y.serial_part x.serial_part).0 same) in
      let narrow : IsKeyed (x ∷ ys) =
        λ b c mb mc. keyed b c (widen b x y ys mb) (widen c x y ys mc) in
      rw same (
        dedup_from-Member a x ys narrow (elim m [
          | inl here ↦ inl here
          | inr (inl here) ↦ inl (here ∙ e)
          | inr (inr later) ↦ inr later
        ]))
  | inr differ ↦ rw differ (elim m [
    | inl here ↦ inl here
    | inr later ↦ inr (dedup_from-Member a y ys (λ b c mb mc. keyed b c (inr mb) (inr mc)) later)
  ])
]

abbrev normal : List San → List San
normal xs = dedup_sans (sort_sans xs)

pub Member-normal : (a : San) (xs : List San) → Member a (normal xs) → Member a xs
unfolding dedup_sans
Member-normal a xs m = Member-sort_sans a xs (kept (sort_sans xs) m)
  where
    kept : (ys : List San) → Member a (dedup_sans ys) → Member a ys
    kept [] n = n
    kept (y ∷ ys) n = Member-dedup_from a y ys n

pub normal-Member : (a : San) (xs : List San) → IsKeyed xs → Member a xs → Member a (normal xs)
unfolding dedup_sans
normal-Member a xs keyed m =
    found (sort_sans xs)
      (λ b c mb mc. keyed b c (Member-sort_sans b xs mb) (Member-sort_sans c xs mc))
      (sort_sans-Member a xs m)
  where
    found : (ys : List San) → IsKeyed ys → Member a ys → Member a (dedup_sans ys)
    found [] k n = n
    found (y ∷ ys) k n = dedup_from-Member a y ys k n

-- What is below the first of a strict list is not in it.
above : (x : San) (xs : List San) (a : San) → IsStrict (x ∷ xs) → Member a xs → a ≢ x
above x xs a (least, _) m e =
    let up = All-elim (λ y. bytes_lt x.serial_part y.serial_part ≡ true) xs least a m in
    let no = bytes_lt_irrefl x.serial_part in absurd (let up' = rw e at up in cc)

-- The first of a strict list with the same members is the first of the other.
first_eq :
    (x y : San) (xs ys : List San)
    → IsStrict (x ∷ xs)
    → IsStrict (y ∷ ys)
    → Member x (y ∷ ys)
    → Member y (x ∷ xs)
    → x ≡ y
first_eq x y xs ys hx hy (inl e) my = e
first_eq x y xs ys hx hy (inr m) (inl e) = sym e
first_eq x y xs ys (hx, _) (hy, _) (inr m) (inr n) =
    let up = All-elim (λ b. bytes_lt y.serial_part b.serial_part ≡ true) ys hy x m in
    let down = All-elim (λ b. bytes_lt x.serial_part b.serial_part ≡ true) xs hx y n in
    let loop = bytes_lt_trans x.serial_part y.serial_part x.serial_part down up in
    let no = bytes_lt_irrefl x.serial_part in absurd cc

rest_of :
    (x y : San) (xs ys : List San)
    → IsStrict (x ∷ xs)
    → x ≡ y
    → ((a : San) → Member a (x ∷ xs) → Member a (y ∷ ys))
    → (a : San) → Member a xs
    → Member a ys
rest_of x y xs ys hx e sub a m = elim (sub a (inr m)) [
  | inl same ↦ absurd (above x xs a hx m (same ∙ sym e))
  | inr later ↦ later
]

-- Strict lists with the same members are equal.
pub IsStrict-ext :
    (xs ys : List San)
    → IsStrict xs
    → IsStrict ys
    → ((a : San) → Member a xs → Member a ys)
    → ((a : San) → Member a ys → Member a xs)
    → xs ≡ ys
IsStrict-ext [] [] hx hy f g = refl
IsStrict-ext [] (y ∷ ys) hx hy f g = absurd (g y (inl refl))
IsStrict-ext (x ∷ xs) [] hx hy f g = absurd (f x (inl refl))
IsStrict-ext (x ∷ xs) (y ∷ ys) hx hy f g =
    let e = first_eq x y xs ys hx hy (f x (inl refl)) (g y (inl refl)) in
    let rest =
      IsStrict-ext xs ys hx.1 hy.1 (rest_of x y xs ys hx e f) (rest_of y x ys xs hy (sym e) g) in
    cc
