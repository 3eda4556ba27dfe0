-- ===== src/Wire/Behind.antt =====
-- Reads and cuts behind a front part.
use smb_browser.Base.{
  List, [], ap, arith, drop, length, suc, zero, ℕ, ◌++◌, ◌+◌, ◌<◌, ◌^◌, ◌∙◌, ◌∷◌, ◌≡◌,
}
use smb_browser.Wire.{u16_le, u32_le}
use smb_browser.Wire.Reads.{byte_of, u16_of, u32_of}
use smb_browser.Wire.Words.{u16_joined, u32_joined}

pub byte_of_behind :
    (front rest : List ℕ) (i k : ℕ)
    → i ≡ length front + k
    → byte_of (front ++ rest) i ≡ byte_of rest k
byte_of_behind [] rest i k e = ap (byte_of rest) (e ∙ omega arith)
byte_of_behind (x ∷ front) rest zero k e = absurd (omega arith)
byte_of_behind (x ∷ front) rest (suc i) k e = byte_of_behind front rest i k (omega arith)

pub drop_behind :
    (front rest : List ℕ) (i k : ℕ) → i ≡ length front + k → drop i (front ++ rest) ≡ drop k rest
drop_behind [] rest i k e = ap (λ (n : ℕ). drop n rest) (e ∙ omega arith)
drop_behind (x ∷ front) rest zero k e = absurd (omega arith)
drop_behind (x ∷ front) rest (suc i) k e = drop_behind front rest i k (omega arith)

-- A 32-bit number that stands behind a front part.
pub u32_of_behind :
    (front rest : List ℕ) (v i : ℕ)
    → i ≡ length front
    → v < 2 ^ 32
    → u32_of (front ++ (u32_le v ++ rest)) i ≡ v
unfolding u32_le
u32_of_behind front rest v i e small =
    rw
      (
        byte_of_behind front (u32_le v ++ rest) i 0 (omega arith),
        byte_of_behind front (u32_le v ++ rest) (i + 1) 1 (omega arith),
        byte_of_behind front (u32_le v ++ rest) (i + 2) 2 (omega arith),
        byte_of_behind front (u32_le v ++ rest) (i + 3) 3 (omega arith),
      )
      (u32_joined v small)

pub u16_of_behind :
    (front rest : List ℕ) (v i : ℕ)
    → i ≡ length front
    → v < 2 ^ 16
    → u16_of (front ++ (u16_le v ++ rest)) i ≡ v
unfolding u16_le
u16_of_behind front rest v i e small =
    rw
      (
        byte_of_behind front (u16_le v ++ rest) i 0 (omega arith),
        byte_of_behind front (u16_le v ++ rest) (i + 1) 1 (omega arith),
      )
      (u16_joined v small)
