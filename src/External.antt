-- ===== src/External.antt =====
-- Interfaces of the crates that the program calls. Each is a record of operations; what the program
-- relies on is a second record, of laws that the crate documents.
pub mod Minicbor
pub mod Ed25519
pub mod Hex
