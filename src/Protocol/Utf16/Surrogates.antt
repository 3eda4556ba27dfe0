-- ===== src/Protocol/Utf16/Surrogates.antt =====
-- encodeUtf16Le of Protocol.cpp on the three-byte form of a surrogate.
use smb_browser.Base.{
  List, [], ap, append-nil, arith, sym, ℕ, ◌%◌, ◌++◌, ◌/◌, ◌<◌, ◌∙◌, ◌∷◌, ◌≡◌, ◌≢◌, ◌≤◌,
}
use smb_browser.Protocol.Utf16.{
  decode_utf16_from, decode_utf16_le, encode_utf16_from, encode_utf16_le, utf16_unit,
  utf8_code_point,
}
use smb_browser.Protocol.Utf16.RoundTrip.{encode_step, utf16_le}
use smb_browser.Wire.{built, reject_if, success, with_built, ◌>>=◌, ◌>>◌}

encoded :
    (c : ℕ)
    → 0xd800 ≤ c
    → c < 0xe000
    → encode_utf16_from 0 (utf8_code_point c ++ []) ≡ built (c % 256 ∷ c / 256 ∷ [])
encoded c low high =
    rw (encode_step c [] (omega arith))
      (unfold encode_utf16_from with_built utf16_le in ground arith)

refused :
    (c : ℕ) (t : List ℕ)
    → 0xd800 ≤ c
    → c < 0xe000
    → decode_utf16_le (c % 256 ∷ c / 256 ∷ []) ≢ success t
unfolding decode_utf16_le decode_utf16_from utf16_unit ◌>>=◌ ◌>>◌ reject_if
refused c t low high e = ground arith

-- The three-byte form of a surrogate, each code point from 0xD800 to 0xDFFF, is encoded by
-- encodeUtf16Le to a single code unit without an exception, and decodeUtf16Le accepts no text
-- for the result.
pub encode_utf16_le_surrogate :
    (c : ℕ)
    → 0xd800 ≤ c
    → c < 0xe000
    → (encode_utf16_le (utf8_code_point c) ≡ built (c % 256 ∷ c / 256 ∷ []))
      × ((t : List ℕ) → decode_utf16_le (c % 256 ∷ c / 256 ∷ []) ≢ success t)
unfolding encode_utf16_le
encode_utf16_le_surrogate c low high = (
  ap (encode_utf16_from 0) (sym (append-nil (utf8_code_point c))) ∙ encoded c low high,
  λ t. refused c t low high,
)
