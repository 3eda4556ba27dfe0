-- ===== src/Protocol/Chain/Walk.antt =====
-- The chain of entries in a buffer, and the loop of Chain on it.
use smb_browser.Base.{
  lt→ltb, refl, ◌≡◌, Bool-cases, arith, false, inl, inr, le→not_ltb, ltb, ltb→lt, not_ltb→le, true,
  ◌==◌, List, [], suc, zero, ℕ, ◌+◌, ◌<◌, ◌∷◌, ◌≢◌, ◌≤◌,
}
use smb_browser.Protocol.Chain.{chained}
use smb_browser.Wire.{success, ◌>>=◌, DecodeResult}
use smb_browser.Wire.Reads.{Ensures-bind, Ensures}

-- The entries that are chained from `offset` on: `Round offset next entry` says that the entry at
-- `offset` is `entry`, and that the next one is `next` bytes further.
pub data Chain {ℓ} {A : Type ℓ} (Round : ℕ → ℕ → A → Type 0) (end : ℕ) : ℕ → List A → Type ℓ where
  done : {offset : ℕ} → end ≤ offset → Chain Round end offset []
  last : {offset : ℕ} {a : A} → offset < end → Round offset 0 a → Chain Round end offset (a ∷ [])
  more :
      {offset : ℕ} {a : A} {rest : List A} (next : ℕ)
      → offset < end
      → next ≢ 0
      → Round offset next a
      → Chain Round end (offset + next) rest
      → Chain Round end offset (a ∷ rest)

-- With a fuel of at least the bytes left the loop never runs out of it: a step takes a byte at least.
pub chained-Ensures :
    {A : Type 0} (Round : ℕ → ℕ → A → Type 0) (round : ℕ → DecodeResult (ℕ × A)) (start end : ℕ)
    → ((offset : ℕ)
        → start ≤ offset
        → offset < end
        → Ensures (λ (next, a). Round offset next a) (round offset))
    → (fuel offset : ℕ) → start ≤ offset
    → end ≤ offset + fuel
    → Ensures (Chain Round end offset) (chained round fuel offset end)
unfolding chained
chained-Ensures Round round start end h zero offset from enough =
    rw (le→not_ltb offset end (omega arith)) (done (omega arith))
chained-Ensures {A} Round round start end h (suc fuel) offset from enough =
    elim (Bool-cases (ltb offset end)) [
      | inr e ↦ rw (e, chained) (done (not_ltb→le offset end e))
      | inl e ↦
          rw (e, chained)
            (Ensures-bind (λ (next, a). Round offset next a) (Chain Round end offset) (round offset)
              _ (h offset from (ltb→lt offset end e))
              λ (next, a) r. step next a r (ltb→lt offset end e) (λ (positive : next ≢ 0).
                chained-Ensures Round round start end h fuel (offset + next) (omega arith)
                  (omega arith)))
    ]
  where
    step :
        (next : ℕ) (a : A)
        → Round offset next a
        → offset < end
        → (next ≢ 0
            → Ensures (Chain Round end (offset + next)) (chained round fuel (offset + next) end))
        → Ensures (Chain Round end offset) (elim (next == 0) [
          | true ↦ success (a ∷ [])
          | false ↦ chained round fuel (offset + next) end >>= λ rest. success (a ∷ rest)
        ])
    step zero a r low later = last low r
    step (suc n) a r low later =
        let positive : (suc n == 0) ≡ false = ground arith in
        rw positive (
          Ensures-bind (Chain Round end (offset + suc n)) (Chain Round end offset) _ _
            (later (λ e. omega arith)) (λ rest c. more (suc n) low (λ e. omega arith) r c))

-- The round that ends the chain.
pub chained_final :
    {A : Type 0} (round : ℕ → DecodeResult (ℕ × A)) (fuel offset end : ℕ) (a : A)
    → offset < end
    → round offset ≡ success (0, a)
    → chained round (suc fuel) offset end ≡ success (a ∷ [])
unfolding chained ◌>>=◌
chained_final round fuel offset end a inside e = rw (lt→ltb offset end inside, chained) (rw e refl)

-- A round with another one behind it.
pub chained_more :
    {A : Type 0} (round : ℕ → DecodeResult (ℕ × A)) (fuel offset end next : ℕ) (a : A)
    (rest : List A)
    → offset < end
    → round offset ≡ success (next, a)
    → 0 < next
    → chained round fuel (offset + next) end ≡ success rest
    → chained round (suc fuel) offset end ≡ success (a ∷ rest)
unfolding chained ◌>>=◌
chained_more round fuel offset end next a rest inside e positive ih =
    let linked : (next == 0) ≡ false = ground arith in
    rw (lt→ltb offset end inside, chained) (rw (e, ◌>>=◌) (rw linked (rw ih refl)))
