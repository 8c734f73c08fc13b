-- ===== src/Pki/Names/Same.antt =====
-- src/pki.rs: the normalised names depend on the set of names alone.
use styrene_identity.Prelude.{
  ◌≡◌, ◌⊎◌, inl, inr, refl, sym, ap, ◌∙◌, Bool-cases, true, false, Option-cases, some, Result-cases,
  ok, >>=-eq-ok, ok-injective, List, [], ◌∷◌, ◌++◌, Member, append_inj, is_empty, Bytes, codes,
  arith,
}
use styrene_identity.Pki.Utf8.{trim, to_ascii_lowercase}
use styrene_identity.Pki.Names.{
  NameText, San, dedup_sans, sort_sans, normalize_name, normalize_each, normalize_subject_alt_names,
  ip_address, dns_name,
}
use styrene_identity.Pki.Names.Canonical.{IsStrict, dedup_sort-IsStrict}
use styrene_identity.Pki.Names.Members.{IsKeyed, Member-normal, normal-Member, IsStrict-ext}

-- An address that was read is read back from its text.
pub record IsNameText {Error : Type 0} (text : NameText Error) : Type 0 where
  pub parse-display :
      (s ip : Bytes) → text.parse_ip s ≡ some ip → text.parse_ip (text.display_ip ip) ≡ some ip

module _ {Error : Type 0} (text : NameText Error) where
  -- A name that is not blank gives this entry.
  abbrev Gives : Bytes → San → Type 0
  Gives name a = (is_empty (trim name) ≡ false) × (normalize_name text (trim name) ≡ ok a)

  -- An entry is an address that was read, or a DNS name that was accepted.
  entry_cases :
      (s : Bytes) (a : San)
      → normalize_name text s ≡ ok a
      → ((ip : Bytes) × (text.parse_ip s ≡ some ip)
          × (a ≡ record { serial_part = codes "ip:" ++ text.display_ip ip; name = ip_address ip }))
        ⊎ ((dns : Bytes) × (text.to_ia5 (to_ascii_lowercase s) ≡ ok dns)
            × (a ≡ record {
              serial_part = codes "dns:" ++ to_ascii_lowercase s;
              name = dns_name dns;
            }))
  unfolding normalize_name
  entry_cases s a h = elim (Option-cases (text.parse_ip s)) [
    | inr (ip, e) ↦ inl (ip, e, ground arith)
    | inl e ↦ elim (Result-cases (text.to_ia5 (to_ascii_lowercase s))) [
      | inl (dns, k) ↦ inr (dns, k, ground arith)
      | inr (why, k) ↦ absurd (ground arith)
    ]
  ]

  each-Member :
      (names : List Bytes) (entries : List San)
      → normalize_each text names ≡ ok entries
      → (a : San) → Member a entries
      → (name : Bytes) × Member name names × Gives name a
  unfolding normalize_each
  each-Member [] entries h a m = let h' = ok-injective h in absurd (rw (← h') at m)
  each-Member (name ∷ more) entries h a m = elim (Bool-cases (is_empty (trim name))) [
    | inl blank ↦
        let (n, found, gives) = each-Member more entries (rw blank at h) a m in
        (n, inr found, gives)
    | inr full ↦
        let (entry, e, h') = >>=-eq-ok (normalize_name text (trim name)) _ (rw full at h) in
        let (others, k, h'') = >>=-eq-ok (normalize_each text more) _ h' in
        elim (rw (← ok-injective h'') at m) [
          | inl here ↦ (name, inl refl, (full, e ∙ ap ok (sym here)))
          | inr later ↦
              let (n, found, gives) = each-Member more others k a later in (n, inr found, gives)
        ]
  ]

  Member-each :
      (names : List Bytes) (entries : List San)
      → normalize_each text names ≡ ok entries
      → (name : Bytes) (a : San) → Member name names
      → Gives name a
      → Member a entries
  unfolding normalize_each
  Member-each [] entries h name a m gives = absurd m
  Member-each (n ∷ more) entries h name a m (full', gives) = elim (Bool-cases (is_empty (trim n))) [
    | inl blank ↦ elim m [
      | inl e ↦ absurd (let full'' = rw e at full' in cc)
      | inr later ↦ Member-each more entries (rw blank at h) name a later (full', gives)
    ]
    | inr full ↦
        let (entry, e, h') = >>=-eq-ok (normalize_name text (trim n)) _ (rw full at h) in
        let (others, k, h'') = >>=-eq-ok (normalize_each text more) _ h' in
        rw (← ok-injective h'') (elim m [
          | inl same ↦ inl (ok-injective (sym gives ∙ (rw same e)))
          | inr later ↦ inr (Member-each more others k name a later (full', gives))
        ])
  ]

  -- A name that is accepted: it is blank, or gives an entry.
  abbrev IsAccepted : Bytes → Type 0
  IsAccepted name = (is_empty (trim name) ≡ true) ⊎ ((a : San) × Gives name a)

  each-IsAccepted :
      (names : List Bytes) (entries : List San)
      → normalize_each text names ≡ ok entries
      → (name : Bytes) → Member name names
      → IsAccepted name
  unfolding normalize_each
  each-IsAccepted [] entries h name m = absurd m
  each-IsAccepted (n ∷ more) entries h name m = elim (Bool-cases (is_empty (trim n))) [
    | inl blank ↦ elim m [
      | inl e ↦ inl (rw e blank)
      | inr later ↦ each-IsAccepted more entries (rw blank at h) name later
    ]
    | inr full ↦
        let (entry, e, h') = >>=-eq-ok (normalize_name text (trim n)) _ (rw full at h) in
        let (others, k, h'') = >>=-eq-ok (normalize_each text more) _ h' in
        elim m [
          | inl same ↦ inr (entry, (rw same full, rw same e))
          | inr later ↦ each-IsAccepted more others k name later
        ]
  ]

  IsAccepted-each :
      (names : List Bytes)
      → ((name : Bytes) → Member name names → IsAccepted name)
      → (entries : List San) × (normalize_each text names ≡ ok entries)
  unfolding normalize_each
  IsAccepted-each [] f = ([], refl)
  IsAccepted-each (n ∷ more) f =
      let (others, k) = IsAccepted-each more (λ name m. f name (inr m)) in
      elim (f n (inl refl)) [
        | inl blank ↦ (others, rw (blank, k) refl)
        | inr (a, (full, gives)) ↦ (a ∷ others, rw (full, gives, k) refl)
      ]

  module _ (law : IsNameText text) where
    -- One serial part stands for one name.
    gives-injective :
        (s t : Bytes) (a b : San)
        → normalize_name text s ≡ ok a
        → normalize_name text t ≡ ok b
        → a.serial_part ≡ b.serial_part
        → a ≡ b
    gives-injective s t a b ha hb e = elim (entry_cases s a ha) [
      | inl (ip, p, ea) ↦ elim (entry_cases t b hb) [
        | inl (ip', p', eb) ↦
            let same : codes "ip:" ++ text.display_ip ip ≡ codes "ip:" ++ text.display_ip ip' =
              ap San.serial_part (sym ea) ∙ e ∙ ap San.serial_part eb in
            let (_, shown) = append_inj (codes "ip:") (codes "ip:") refl same in
            let back = law.parse-display s ip p in
            let back' = law.parse-display t ip' p' in
            let back'' = rw shown at back in let same_ip : ip ≡ ip' = cc in ea ∙ rw same_ip (sym eb)
        | inr (dns', k', eb) ↦
            let mixed = ap San.serial_part (sym ea) ∙ e ∙ ap San.serial_part eb in
            absurd (ground arith)
      ]
      | inr (dns, k, ea) ↦ elim (entry_cases t b hb) [
        | inl (ip', p', eb) ↦
            let mixed = ap San.serial_part (sym ea) ∙ e ∙ ap San.serial_part eb in
            absurd (ground arith)
        | inr (dns', k', eb) ↦
            let same : codes "dns:" ++ to_ascii_lowercase s ≡ codes "dns:" ++ to_ascii_lowercase t =
              ap San.serial_part (sym ea) ∙ e ∙ ap San.serial_part eb in
            let (_, lower) = append_inj (codes "dns:") (codes "dns:") refl same in
            let k'' = rw lower at k in
            let same_dns : dns ≡ dns' = cc in ea ∙ rw (lower, same_dns) (sym eb)
      ]
    ]

    each-IsKeyed :
        (names : List Bytes) (entries : List San)
        → normalize_each text names ≡ ok entries
        → IsKeyed entries
    each-IsKeyed names entries h a b ma mb e =
        let (n, _, (_, ga)) = each-Member names entries h a ma in
        let (n', _, (_, gb)) = each-Member names entries h b mb in
        gives-injective (trim n) (trim n') a b ga gb e

    -- Normalising depends on the set of names alone: where it accepts one list, it accepts every
    -- list of the same names, in any order and with any repetitions, with the same result, in
    -- which the serial parts strictly ascend. An address that was read is read back from its text.
    pub normalize_subject_alt_names-same :
        (names others : List Bytes) (entries : List San)
        → ((name : Bytes) → Member name names → Member name others)
        → ((name : Bytes) → Member name others → Member name names)
        → normalize_subject_alt_names text names ≡ ok entries
        → (normalize_subject_alt_names text others ≡ ok entries) × IsStrict entries
    unfolding normalize_subject_alt_names
    normalize_subject_alt_names-same names others entries f g h =
        let (xs, hx, e) = >>=-eq-ok (normalize_each text names) _ h in
        let (ys, hy) = IsAccepted-each others (λ n m. each-IsAccepted names xs hx n (g n m)) in
        let same =
          IsStrict-ext (dedup_sans (sort_sans ys)) (dedup_sans (sort_sans xs))
            (dedup_sort-IsStrict ys) (dedup_sort-IsStrict xs) (carry others names ys xs hy hx g)
            (carry names others xs ys hx hy f) in
        (rw hy (ap ok same ∙ e), rw (← ok-injective e) (dedup_sort-IsStrict xs))
      where
        carry :
            (ns ms : List Bytes) (xs ys : List San)
            → normalize_each text ns ≡ ok xs
            → normalize_each text ms ≡ ok ys
            → ((name : Bytes) → Member name ns → Member name ms)
            → (a : San) → Member a (dedup_sans (sort_sans xs))
            → Member a (dedup_sans (sort_sans ys))
        carry ns ms xs ys hx hy f a m =
            let (n, found, gives) = each-Member ns xs hx a (Member-normal a xs m) in
            normal-Member a ys (each-IsKeyed ms ys hy) (Member-each ms ys hy n a (f n found) gives)
