-- ===== src/Protocol/Ea.antt =====
-- The extended attributes of Protocol.cpp (buildFileFullEaInformation, decodeFileFullEaInformation).
pub mod Walk
pub mod RoundTrip
pub mod Entries
use smb_browser.Base.{
  Bool, List, [], bit_and, if◌then◌else◌, is_empty, leb, length, ltb, not, replicate, ℕ, ◌&&◌, ◌*◌,
  ◌++◌, ◌+◌, ◌-◌, ◌/◌, ◌==◌, ◌||◌, ◌∷◌,
}
use smb_browser.Protocol.Chain.{chained}
use smb_browser.Wire.{
  Built, DecodeResult, built, byte_at, io_error, protocol_unsupported, read_u16_le, read_u32_le,
  reject_if, slice, success, throw_if, u16_le, u32_le, u8, with_built, ◌>>=◌, ◌>>◌,
}

pub record FileFullEaInformation : Type 0 where
  pub name : List ℕ
  pub value : List ℕ
  pub need_ea : Bool

-- The bytes of one entry, padded to a multiple of 4 unless it is the last.
unfoldable pub ea_entry : FileFullEaInformation → Bool → List ℕ
ea_entry entry is_last =
    let size = 8 + length entry.name + 1 + length entry.value in
    let aligned = if is_last then size else (size + 3) / 4 * 4 in
    u32_le (if is_last then 0 else aligned)
    ++ (u8 (if entry.need_ea then 0x80 else 0)
        ++ u8 (length entry.name)
        ++ u16_le (length entry.value)
        ++ entry.name
        ++ (0 ∷ [])
        ++ entry.value
        ++ replicate (aligned - size) 0)

unfoldable pub build_file_full_ea_information : List FileFullEaInformation → Built
unfolding ea_entry
build_file_full_ea_information [] = built []
build_file_full_ea_information (entry ∷ entries) =
    throw_if (is_empty entry.name) "SMB2 EA name is empty." (
      throw_if (ltb 0xff (length entry.name)) "SMB2 EA name is too large." (
        throw_if (ltb 0xffff (length entry.value)) "SMB2 EA value is too large." (
          with_built (build_file_full_ea_information entries)
            λ later. built (ea_entry entry (is_empty entries) ++ later))))

-- One round at `offset`: the offset of the next entry, and the entry.
unfoldable pub read_ea_entry : List ℕ → ℕ → DecodeResult (ℕ × FileFullEaInformation)
read_ea_entry bytes offset = do
  reject_if (ltb (length bytes - offset) 8) io_error
      "FILE_FULL_EA_INFORMATION entry is shorter than fixed header."
  next ← read_u32_le bytes offset
  flags ← byte_at bytes (offset + 4)
  name_length ← byte_at bytes (offset + 5)
  value_length ← read_u16_le bytes (offset + 6)
  let name_end = offset + 8 + name_length
  reject_if (ltb (length bytes) (name_end + 1 + value_length)) io_error
      "FILE_FULL_EA_INFORMATION entry payload is out of bounds."
  terminator ← byte_at bytes name_end
  reject_if (not (terminator == 0)) protocol_unsupported
      "FILE_FULL_EA_INFORMATION entry name is not NUL-terminated."
  name ← slice bytes (offset + 8) name_end
  value ← slice bytes (name_end + 1) (name_end + 1 + value_length)
  reject_if
      (not (next == 0)
        && (ltb next 8 || (leb (offset + next) offset || ltb (length bytes) (offset + next))))
      io_error "FILE_FULL_EA_INFORMATION next entry offset is invalid."
  success (next, record { name = name; value = value; need_ea = not (bit_and flags 0x80 == 0) })

unfoldable pub decode_file_full_ea_information : List ℕ → DecodeResult (List FileFullEaInformation)
decode_file_full_ea_information bytes =
    chained (read_ea_entry bytes) (length bytes) 0 (length bytes)
