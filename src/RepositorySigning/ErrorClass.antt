-- ===== src/RepositorySigning/ErrorClass.antt =====
-- The stable rejection classes of src/repository_signing.rs.
use styrene_identity.RepositorySigning.{RepositorySignerBindingError}

pub data RepositorySignerBindingErrorClass : Type 0 where
  format too_large canonical semantic : RepositorySignerBindingErrorClass
  identity_mismatch signature : RepositorySignerBindingErrorClass

unfoldable pub class : RepositorySignerBindingError → RepositorySignerBindingErrorClass
class RepositorySignerBindingError.format = RepositorySignerBindingErrorClass.format
class RepositorySignerBindingError.too_large = RepositorySignerBindingErrorClass.too_large
class RepositorySignerBindingError.canonical = RepositorySignerBindingErrorClass.canonical
class RepositorySignerBindingError.semantic = RepositorySignerBindingErrorClass.semantic
class RepositorySignerBindingError.identity_mismatch =
    RepositorySignerBindingErrorClass.identity_mismatch
class RepositorySignerBindingError.signature = RepositorySignerBindingErrorClass.signature
