-- ===== src/Wire/Words.antt =====
-- A word read from its bytes is the word that was written.
use smb_browser.Base.{ℕ, ◌+◌, ◌*◌, ◌/◌, ◌%◌, ◌^◌, ◌<◌, ◌≡◌, arith}

pub u16_joined : (v : ℕ) → v < 2 ^ 16 → v % 256 + v / 256 % 256 * 256 ≡ v
u16_joined v h = omega arith

pub u32_joined :
    (v : ℕ)
    → v < 2 ^ 32
    → v % 256 + v / 256 % 256 * 256 + v / 65536 % 256 * 65536 + v / 16777216 % 256 * 16777216 ≡ v
u32_joined v h = omega arith

u32_low :
    (v : ℕ)
    → v % 256 + v / 256 % 256 * 256 + v / 65536 % 256 * 65536 + v / 16777216 % 256 * 16777216
      ≡ v % 4294967296
u32_low v = omega arith

-- The upper half is itself a 32-bit word.
pub u64_joined :
    (v : ℕ)
    → v < 2 ^ 64
    → v % 256
        + v / 256 % 256 * 256
        + v / 65536 % 256 * 65536
        + v / 16777216 % 256 * 16777216
        + (v / 4294967296 % 256
            + v / 4294967296 / 256 % 256 * 256
            + v / 4294967296 / 65536 % 256 * 65536
            + v / 4294967296 / 16777216 % 256 * 16777216)
          * 4294967296
      ≡ v
u64_joined v h = rw (u32_low v, u32_joined (v / 4294967296) (omega arith)) (omega arith)
