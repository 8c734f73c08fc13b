-- ===== src/Records/RuntimeCertificate/Times.antt =====
-- The validity window of src/records/runtime_certificate.rs.
use styrene_identity.Prelude.{◌+◌, ◌*◌, ◌≤◌, ◌<◌, ◌≡◌, ◌↔◌, ok, arith}
use styrene_identity.Records.RuntimeCertificate.{RuntimeCertificateClaims, validate_times}

-- A lifetime of at most a day, renewed between its half (rounded down) and four fifths of it.
pub record IsValidWindow (c : RuntimeCertificateClaims) : Type 0 where
  pub opens : c.not_before_ms < c.not_after_ms
  pub bounded : c.not_after_ms ≤ c.not_before_ms + 86_400_000
  pub not_too_early : c.not_after_ms + c.not_before_ms ≤ 2 * c.renew_after_ms + 1
  pub not_too_late : 5 * c.renew_after_ms ≤ 4 * c.not_after_ms + c.not_before_ms

-- The times are accepted exactly when they form a valid window; the multiplication by four never
-- overflows on the way.
pub validate_times-IsValidWindow :
    (c : RuntimeCertificateClaims) → (validate_times c ≡ ok tt) ↔ IsValidWindow c
unfolding validate_times
validate_times-IsValidWindow c = (λ h. ground arith, λ w. ground arith)
