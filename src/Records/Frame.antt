-- ===== src/Records/Frame.antt =====
-- The signing frame of src/records/mod.rs: what it holds, and that nothing of it is ambiguous.
use styrene_identity.Prelude.{
  ℕ, ◌<◌, ◌^◌, ◌≡◌, refl, sym, ◌∙◌, ◌++◌, ok, length, append_inj, Bytes, be16, be32, arith,
}
use styrene_identity.Records.{record_profile_version, signing_frame}

-- The layout shared by every signed structure of the program.
abbrev pub layout : Bytes → Bytes → Bytes
layout domain protected =
    be16 (length domain)
    ++ (domain ++ (be16 record_profile_version ++ (be32 (length protected) ++ protected)))

pub be16-injective : (a b : ℕ) → a < 2 ^ 16 → b < 2 ^ 16 → be16 a ≡ be16 b → a ≡ b
be16-injective a b ha hb e = ground arith

pub layout_inj :
    (d d' p p' : Bytes)
    → length d < 2 ^ 16
    → length d' < 2 ^ 16
    → layout d p ≡ layout d' p'
    → (d ≡ d') × (p ≡ p')
layout_inj d d' p p' hd hd' e =
    let (lens, rest) = append_inj (be16 (length d)) (be16 (length d')) refl e in
    let (same, rest') = append_inj d d' (be16-injective _ _ hd hd' lens) rest in
    let (_, tail) = append_inj (be16 1) (be16 1) refl rest' in
    let (_, protected) = append_inj (be32 (length p)) (be32 (length p')) refl tail in
    (same, protected)

pub signing_frame-layout :
    (domain protected : Bytes) {frame : Bytes}
    → signing_frame domain protected ≡ ok frame
    → (length domain < 2 ^ 16) × (frame ≡ layout domain protected)
unfolding signing_frame
signing_frame-layout domain protected h = ground arith

-- A frame determines its domain and its protected bytes: no two signed messages share a frame,
-- within one domain or across domains.
pub signing_frame-injective :
    (d d' p p' : Bytes) {frame : Bytes}
    → signing_frame d p ≡ ok frame
    → signing_frame d' p' ≡ ok frame
    → (d ≡ d') × (p ≡ p')
signing_frame-injective d d' p p' h h' =
    let (small, e) = signing_frame-layout d p h in
    let (small', e') = signing_frame-layout d' p' h' in
    layout_inj d d' p p' small small' (sym e ∙ e')
