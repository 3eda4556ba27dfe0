-- ===== src/Protocol/Utf16.antt =====
-- encodeUtf16Le, decodeUtf16Le and appendUtf8CodePoint of Protocol.cpp. A `std::string` is the list
-- of its bytes. On a byte b, `(b & 0xE0) == 0xC0` is `b / 32 == 6`, `b & 0x1F` is `b % 32`, and so on
-- for the other masks; where the fields of a `|` share no bit it is written `+`.
pub mod RoundTrip
pub mod Total
pub mod Surrogates
use smb_browser.Base.{
  ℕ, zero, suc, ◌+◌, ◌-◌, ◌*◌, ◌/◌, ◌%◌, Bool, true, false, not, ◌&&◌, ◌||◌, List, [], ◌∷◌, ◌++◌,
  length, String, leb, ltb, ◌==◌, if◌then◌else◌,
}
use smb_browser.Wire.{
  DecodeResult, success, ◌>>=◌, ◌>>◌, failed, reject_if, io_error, Built, built, invalid,
  with_built, u16_le,
}

-- What stands at `text[i]`: a code point and the number of bytes consumed, or an exception.
pub data Utf8Sequence : Type 0 where
  sequence : ℕ → ℕ → Utf8Sequence
  malformed : String → Utf8Sequence

abbrev pub is_continuation : ℕ → Bool
is_continuation b = b / 64 == 2

abbrev pub bad_continuation : String
bad_continuation = "Invalid UTF-8 continuation byte."

abbrev pub bad_sequence : String
bad_sequence = "Invalid UTF-8 sequence."

two_bytes : ℕ → List ℕ → Utf8Sequence
two_bytes first [] = malformed bad_sequence
two_bytes first (second ∷ _) =
    if is_continuation second
    then sequence (first % 32 * 64 + second % 64) 2
    else malformed bad_continuation

three_bytes : ℕ → List ℕ → Utf8Sequence
three_bytes first (second ∷ third ∷ _) =
    if is_continuation second && is_continuation third
    then sequence (first % 16 * 4096 + second % 64 * 64 + third % 64) 3
    else malformed bad_continuation
three_bytes first _ = malformed bad_sequence

four_bytes : ℕ → List ℕ → Utf8Sequence
four_bytes first (second ∷ third ∷ fourth ∷ _) =
    if is_continuation second && (is_continuation third && is_continuation fourth)
    then sequence (first % 8 * 262144 + second % 64 * 4096 + third % 64 * 64 + fourth % 64) 4
    else malformed bad_continuation
four_bytes first _ = malformed bad_sequence

-- `rest` is what follows `text[i]`.
unfoldable pub utf8_sequence : ℕ → List ℕ → Utf8Sequence
unfolding two_bytes three_bytes four_bytes
utf8_sequence first rest =
    if first / 128 == 0
    then sequence first 1
    else if first / 32 == 6
    then two_bytes first rest
    else if first / 16 == 14
    then three_bytes first rest
    else if first / 8 == 30
    then four_bytes first rest
    else malformed bad_sequence

-- The code units that are appended for a code point.
unfoldable pub utf16_units : ℕ → Built
unfolding u16_le
utf16_units code_point =
    if leb code_point 0xffff
    then built (u16_le code_point)
    else if leb code_point 0x10ffff
    then built (
        u16_le (0xd800 + (code_point - 0x10000) / 1024)
        ++ u16_le (0xdc00 + (code_point - 0x10000) % 1024))
    else invalid "Unicode code point is out of range."

-- The loop from `text[i]` on, where `skip` bytes are left of the sequence that was consumed last.
unfoldable pub encode_utf16_from : ℕ → List ℕ → Built
encode_utf16_from skip [] = built []
encode_utf16_from (suc skip) (b ∷ rest) = encode_utf16_from skip rest
encode_utf16_from zero (b ∷ rest) = elim (utf8_sequence b rest) [
  | malformed m ↦ invalid m
  | sequence code_point consumed ↦
      with_built (utf16_units code_point)
        λ units. with_built (encode_utf16_from (consumed - 1) rest) λ later. built (units ++ later)
]

unfoldable pub encode_utf16_le : List ℕ → Built
encode_utf16_le text = encode_utf16_from 0 text

-- appendUtf8CodePoint: the bytes that it appends.
unfoldable pub utf8_code_point : ℕ → List ℕ
utf8_code_point c =
    if leb c 0x7f
    then c ∷ []
    else if leb c 0x7ff
    then (0xc0 + c / 64) ∷ (0x80 + c % 64) ∷ []
    else if leb c 0xffff
    then (0xe0 + c / 4096) ∷ (0x80 + c / 64 % 64) ∷ (0x80 + c % 64) ∷ []
    else (0xf0 + c / 262144) ∷ (0x80 + c / 4096 % 64) ∷ (0x80 + c / 64 % 64) ∷ (0x80 + c % 64) ∷ []

-- What stands at `offset`: a code point, and whether it took a second unit.
pub data Utf16Unit : Type 0 where
  unit : ℕ → Bool → Utf16Unit
  unpaired : String → Utf16Unit

-- The unit behind a high surrogate; `rest` is the buffer from `offset + 2` on.
low_surrogate : ℕ → List ℕ → Utf16Unit
low_surrogate high (a ∷ b ∷ _) =
    let next = a + b * 256 in
    if ltb next 0xdc00 || ltb 0xdfff next
    then unpaired "UTF-16LE high surrogate is not paired."
    else unit (0x10000 + (high - 0xd800) * 1024 + (next - 0xdc00)) true
low_surrogate high _ = unpaired "UTF-16LE high surrogate is truncated."

unfoldable pub utf16_unit : ℕ → List ℕ → Utf16Unit
unfolding low_surrogate
utf16_unit value rest =
    if leb 0xd800 value && leb value 0xdbff
    then low_surrogate value rest
    else if leb 0xdc00 value && leb value 0xdfff
    then unpaired "UTF-16LE low surrogate has no high surrogate."
    else unit value false

-- The loop from `offset` on; `skip` says that the unit at `offset` was the low one of a pair.
unfoldable pub decode_utf16_from : Bool → List ℕ → DecodeResult (List ℕ)
decode_utf16_from skip [] = success []
decode_utf16_from skip (a ∷ []) = success []
decode_utf16_from true (a ∷ b ∷ rest) = decode_utf16_from false rest
decode_utf16_from false (a ∷ b ∷ rest) = elim (utf16_unit (a + b * 256) rest) [
  | unpaired m ↦ failed io_error m
  | unit code_point paired ↦
      decode_utf16_from paired rest >>= λ later. success (utf8_code_point code_point ++ later)
]

unfoldable pub decode_utf16_le : List ℕ → DecodeResult (List ℕ)
decode_utf16_le bytes = do
  reject_if (not (length bytes % 2 == 0)) io_error "UTF-16LE buffer has odd byte length."
  decode_utf16_from false bytes
