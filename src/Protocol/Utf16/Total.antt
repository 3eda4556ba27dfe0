-- ===== src/Protocol/Utf16/Total.antt =====
-- decodeUtf16Le of Protocol.cpp on any buffer.
use smb_browser.Base.{Bool, List, [], arith, false, true, ℕ, ◌∷◌, ◌≢◌}
use smb_browser.Protocol.Utf16.{decode_utf16_from, decode_utf16_le}
use smb_browser.Wire.{fault, reject_if, ◌>>=◌, ◌>>◌}

decode_utf16_from-ne-fault : (skip : Bool) (bytes : List ℕ) → decode_utf16_from skip bytes ≢ fault
unfolding decode_utf16_from ◌>>=◌
decode_utf16_from-ne-fault skip [] e = cc
decode_utf16_from-ne-fault skip (a ∷ []) e = cc
decode_utf16_from-ne-fault true (a ∷ b ∷ rest) e = decode_utf16_from-ne-fault false rest e
decode_utf16_from-ne-fault false (a ∷ b ∷ rest) e =
    ground (arith, decode_utf16_from-ne-fault true rest, decode_utf16_from-ne-fault false rest)

-- decodeUtf16Le reads inside its buffer, on every buffer.
pub decode_utf16_le-ne-fault : (bytes : List ℕ) → decode_utf16_le bytes ≢ fault
unfolding decode_utf16_le ◌>>◌ ◌>>=◌ reject_if
decode_utf16_le-ne-fault bytes e = ground (arith, decode_utf16_from-ne-fault false bytes)
