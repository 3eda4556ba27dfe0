-- ===== src/Protocol/Utf16/RoundTrip.antt =====
-- encodeUtf16Le and decodeUtf16Le of Protocol.cpp on text of Unicode scalar values.
use smb_browser.Base.{
  ℕ, ◌+◌, ◌/◌, ◌%◌, ◌-◌, ◌<◌, ◌≤◌, ◌≡◌, ◌⊎◌, refl, List, [], ◌∷◌, ◌++◌, All, false, length, arith,
  ltb, if◌then◌else◌,
}
use smb_browser.Protocol.Utf16.{
  sequence, utf8_sequence, utf16_units, encode_utf16_from, encode_utf16_le, utf8_code_point,
  utf16_unit, decode_utf16_from, decode_utf16_le,
}
use smb_browser.Wire.{success, built, with_built, ◌>>=◌, ◌>>◌, reject_if}

-- A Unicode scalar value: no surrogate, and at most 0x10FFFF.
abbrev pub IsScalarValue : ℕ → Type 0
IsScalarValue c = (c < 0xd800) ⊎ ((0xdfff < c) × (c < 0x110000))

-- The text as UTF-8 and as UTF-16LE.
abbrev pub utf8 : List ℕ → List ℕ
utf8 [] = []
utf8 (c ∷ cs) = utf8_code_point c ++ utf8 cs

unfoldable pub utf16_le : ℕ → List ℕ
utf16_le c =
    if ltb c 0x10000
    then c % 256 ∷ c / 256 ∷ []
    else (c - 0x10000) / 1024 % 256
      ∷ (0xd8 + (c - 0x10000) / 262144)
      ∷ (c % 256)
      ∷ (0xdc + c / 256 % 4)
      ∷ []

abbrev pub utf16 : List ℕ → List ℕ
utf16 [] = []
utf16 (c ∷ cs) = utf16_le c ++ utf16 cs

-- The four lengths of a UTF-8 sequence.
one_byte : (c : ℕ) (rest : List ℕ) → c < 0x80 → utf8_sequence c rest ≡ sequence c 1
unfolding utf8_sequence
one_byte c rest h = ground arith

two_bytes :
    (c : ℕ) (rest : List ℕ)
    → 0x80 ≤ c
    → c < 0x800
    → utf8_sequence (0xc0 + c / 64) ((0x80 + c % 64) ∷ rest) ≡ sequence c 2
unfolding utf8_sequence
two_bytes c rest h k = ground arith

three_bytes :
    (c : ℕ) (rest : List ℕ)
    → 0x800 ≤ c
    → c < 0x10000
    → utf8_sequence (0xe0 + c / 4096) ((0x80 + c / 64 % 64) ∷ (0x80 + c % 64) ∷ rest) ≡ sequence c 3
unfolding utf8_sequence
three_bytes c rest h k = ground arith

four_bytes :
    (c : ℕ) (rest : List ℕ)
    → 0x10000 ≤ c
    → c < 0x110000
    → utf8_sequence
        (0xf0 + c / 262144)
        ((0x80 + c / 4096 % 64) ∷ (0x80 + c / 64 % 64) ∷ (0x80 + c % 64) ∷ rest)
      ≡ sequence c 4
unfolding utf8_sequence
four_bytes c rest h k = ground arith

units_of_scalar : (c : ℕ) → c < 0x110000 → utf16_units c ≡ built (utf16_le c)
unfolding utf16_units utf16_le
units_of_scalar c h = ground arith

-- One code point at the front.
pub encode_step :
    (c : ℕ) (rest : List ℕ)
    → c < 0x110000
    → encode_utf16_from 0 (utf8_code_point c ++ rest)
      ≡ with_built (encode_utf16_from 0 rest) (λ later. built (utf16_le c ++ later))
unfolding encode_utf16_from utf8_code_point with_built
encode_step c rest v = ground (
  arith,
  one_byte c rest,
  two_bytes c rest,
  three_bytes c rest,
  four_bytes c rest,
  units_of_scalar c v,
)

decode_step :
    (c : ℕ) (rest : List ℕ)
    → IsScalarValue c
    → decode_utf16_from false (utf16_le c ++ rest)
      ≡ (decode_utf16_from false rest >>= λ later. success (utf8_code_point c ++ later))
unfolding decode_utf16_from utf16_unit utf16_le
decode_step c rest v = ground arith

encode_utf16_from-utf8 :
    (cs : List ℕ) → All IsScalarValue cs → encode_utf16_from 0 (utf8 cs) ≡ built (utf16 cs)
unfolding encode_utf16_from
encode_utf16_from-utf8 [] v = refl
encode_utf16_from-utf8 (c ∷ cs) (v, vs) =
    rw (encode_step c (utf8 cs) (omega arith), encode_utf16_from-utf8 cs vs)
      (unfold with_built in refl)

decode_utf16_from-utf16 :
    (cs : List ℕ) → All IsScalarValue cs → decode_utf16_from false (utf16 cs) ≡ success (utf8 cs)
unfolding decode_utf16_from
decode_utf16_from-utf16 [] v = refl
decode_utf16_from-utf16 (c ∷ cs) (v, vs) =
    rw (decode_step c (utf16 cs) v, decode_utf16_from-utf16 cs vs) (unfold ◌>>=◌ in refl)

utf16_even : (cs : List ℕ) → length (utf16 cs) % 2 ≡ 0
unfolding utf16_le
utf16_even [] = refl
utf16_even (c ∷ cs) = ground (arith, utf16_even cs)

-- For every text of Unicode scalar values, encodeUtf16Le turns its UTF-8 form into its UTF-16LE
-- form without an exception, and decodeUtf16Le turns that back into the same UTF-8.
pub decode_utf16_le-encode_utf16_le :
    (cs : List ℕ)
    → All IsScalarValue cs
    → (encode_utf16_le (utf8 cs) ≡ built (utf16 cs))
      × (decode_utf16_le (utf16 cs) ≡ success (utf8 cs))
unfolding encode_utf16_le decode_utf16_le reject_if ◌>>◌ ◌>>=◌
decode_utf16_le-encode_utf16_le cs v =
    (encode_utf16_from-utf8 cs v, rw (utf16_even cs) (decode_utf16_from-utf16 cs v))
