-- ===== src/Platform.antt =====
-- The signers of platform key stores and of a FIDO2 device. A store is a parameter: each of its calls
-- takes the store's state to a result and the next state.
pub mod Store
pub mod Android
pub mod Keychain
pub mod YubiKey
