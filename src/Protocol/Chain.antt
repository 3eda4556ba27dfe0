-- ===== src/Protocol/Chain.antt =====
-- The loop over entries that are chained by offsets, as decodeQueryDirectoryResponse,
-- decodeChangeNotifyResponse and decodeFileFullEaInformation of Protocol.cpp have it.
pub mod Walk
use smb_browser.Base.{List, [], false, if◌then◌else◌, ltb, suc, true, zero, ℕ, ◌+◌, ◌==◌, ◌∷◌}
use smb_browser.Wire.{DecodeResult, fault, success, ◌>>=◌}

-- `while (offset < end) { parse; push; if (next == 0) break; offset += next; }`, where `round offset`
-- gives `next` and the entry. The fuel counts the rounds left; running out of it is a `fault` too.
unfoldable pub chained {ℓ} :
    {A : Type ℓ} → (ℕ → DecodeResult (ℕ × A)) → ℕ → ℕ → ℕ → DecodeResult (List A)
chained round zero offset end = if ltb offset end then fault else success []
chained round (suc fuel) offset end = elim (ltb offset end) [
  | false ↦ success []
  | true ↦ round offset >>= λ (next, entry). elim (next == 0) [
    | true ↦ success (entry ∷ [])
    | false ↦ chained round fuel (offset + next) end >>= λ rest. success (entry ∷ rest)
  ]
]
