-- ===== src/Client/Safety.antt =====
-- The rules for the conversations of src/native_smb, and what is known of one exchange under them.
pub mod Requests
pub mod Rules
pub mod Exchanges
