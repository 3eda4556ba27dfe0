-- ===== src/Client/Operators.antt =====
-- The operators of src/native_smb: what each one asks of a server, in which order. Here the parts
-- that they share.
pub mod Access
pub mod Transfers
pub mod Listing
pub mod Objects
pub mod Stat
pub mod Metadata
pub mod Sends
use smb_browser.Base.{if◌then◌else◌, ltb, suc, zero, ◌%◌, ◌/◌, ◌^◌, ℕ, String, ◌<>◌, Bool}
use smb_browser.Protocol.Status.{hex_digit}
use smb_browser.Wire.{DecodeResult, failure, fault, success}

-- `stream << messageId`: a 64-bit number has twenty digits at most.
digits : ℕ → ℕ → String
digits zero n = ""
digits (suc fuel) n =
    let front = digits fuel (n / 10) in (if ltb n 10 then "" else front) <> hex_digit (n % 10)

-- failureFrom(error, messageId) of FileReader.cpp and DirectoryLister.cpp.
unfoldable pub naming {ℓ} : {A : Type ℓ} → ℕ → DecodeResult A → DecodeResult A
unfolding digits
naming message_id (success a) = success a
naming message_id (failure e) =
    failure
      (record e { message = e.message <> " message_id=" <> digits 20 (message_id % 2 ^ 64) <> "." })
naming message_id fault = fault
