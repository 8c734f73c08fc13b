-- ===== src/Tests.antt =====
-- The theorems at concrete data. The parameters that stand for other crates are instantiated by
-- small functions that have the documented properties.
mod Agent
mod Certificates
mod Chain
mod Codec
mod Cryptography
mod HexText
mod Issuing
mod Stores
mod Honest
mod Storage
mod Vaults
mod Signing
mod Keys
mod Signed
