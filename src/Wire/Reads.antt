-- ===== src/Wire/Reads.antt =====
-- Reads and copies inside the buffer succeed, with the values written out.
use smb_browser.Base.{
  ℕ, Bool, true, false, String, refl, ◌≢◌, ◌+◌, ◌-◌, ◌*◌, ◌≤◌, ◌<◌, ◌≡◌, List, get_or, get_elem?_in,
  length, take, drop, arith,
}
use smb_browser.Wire.{
  DecodeResult, success, failure, fault, ErrorCode, reject_if, ◌>>=◌, ◌>>◌, byte_at, read_u16_le,
  read_u32_le, read_u64_le, read_file_id, slice, FileId,
}

-- A decoded value with the facts `P`, an error, but no access outside the buffer.
abbrev pub Ensures {ℓ} : {A : Type ℓ} → (A → Type 0) → DecodeResult A → Type 0
Ensures P (success a) = P a
Ensures P (failure e) = Unit {0}
Ensures P fault = ⊥

module _ {ℓ κ} {A : Type ℓ} {B : Type κ} (P : A → Type 0) (Q : B → Type 0) where
  pub Ensures-bind :
      (m : DecodeResult A) (f : A → DecodeResult B)
      → Ensures P m
      → ((a : A) → P a → Ensures Q (f a))
      → Ensures Q (m >>= f)
  unfolding ◌>>=◌
  Ensures-bind (success a) f p k = k a p
  Ensures-bind (failure e) f p k = tt
  Ensures-bind fault f p k = p

-- A step that is known to succeed.
pub Ensures-step {ℓ κ} :
    {A : Type ℓ} {B : Type κ} (Q : B → Type 0) {m : DecodeResult A} (f : A → DecodeResult B) {a : A}
    → m ≡ success a
    → Ensures Q (f a)
    → Ensures Q (m >>= f)
unfolding ◌>>=◌
Ensures-step Q f e h = rw e h

module _ {ℓ} {A : Type ℓ} (Q : A → Type 0) where
  pub Ensures-reject_if :
      (bad : Bool) (c : ErrorCode) (m : String) (k : DecodeResult A)
      → (bad ≡ false → Ensures Q k)
      → Ensures Q (reject_if bad c m >> k)
  unfolding reject_if ◌>>◌
  Ensures-reject_if true c m r k = tt
  Ensures-reject_if false c m r k = k refl

  pub Ensures-then :
      (P : Type 0) (m : DecodeResult (Unit {0})) (k : DecodeResult A)
      → Ensures (λ _. P) m
      → (P → Ensures Q k)
      → Ensures Q (m >> k)
  unfolding ◌>>=◌ ◌>>◌
  Ensures-then P (success a) r p k = k p
  Ensures-then P (failure e) r p k = tt
  Ensures-then P fault r p k = p

  pub Ensures-ne-fault : (r : DecodeResult A) → Ensures Q r → r ≢ fault
  Ensures-ne-fault (success a) p e = cc
  Ensures-ne-fault (failure x) p e = cc
  Ensures-ne-fault fault p e = p

pub Ensures-weaken {ℓ} :
    {A : Type ℓ} {P Q : A → Type 0} (r : DecodeResult A)
    → Ensures P r
    → ((a : A) → P a → Q a)
    → Ensures Q r
Ensures-weaken (success a) p k = k a p
Ensures-weaken (failure e) p k = tt
Ensures-weaken fault p k = p

pub Ensures-self {ℓ} :
    {A : Type ℓ} (r : DecodeResult A)
    → r ≢ fault
    → (P : A → Type 0) → ((a : A) → r ≡ success a → P a)
    → Ensures P r
Ensures-self (success a) h P k = k a refl
Ensures-self (failure e) h P k = tt
Ensures-self fault h P k = h refl

-- The values that stand in a buffer.
abbrev pub byte_of : List ℕ → ℕ → ℕ
byte_of bytes i = get_or bytes i 0

abbrev pub u16_of : List ℕ → ℕ → ℕ
u16_of bytes i = byte_of bytes i + byte_of bytes (i + 1) * 256

abbrev pub u32_of : List ℕ → ℕ → ℕ
u32_of bytes i =
    byte_of bytes i
    + byte_of bytes (i + 1) * 256
    + byte_of bytes (i + 2) * 65536
    + byte_of bytes (i + 3) * 16777216

abbrev pub u64_of : List ℕ → ℕ → ℕ
u64_of bytes i = u32_of bytes i + u32_of bytes (i + 4) * 4294967296

abbrev pub file_id_of : List ℕ → ℕ → FileId
file_id_of bytes i = record { persistent = u64_of bytes i; volatile_id = u64_of bytes (i + 8) }

module _ (bytes : List ℕ) (i : ℕ) where
  pub byte_at_in : i < length bytes → byte_at bytes i ≡ success (byte_of bytes i)
  unfolding byte_at
  byte_at_in h = rw (get_elem?_in bytes i 0 h, byte_at)

module _ (bytes : List ℕ) (i : ℕ) where
  pub read_u16_le_in : i + 2 ≤ length bytes → read_u16_le bytes i ≡ success (u16_of bytes i)
  unfolding read_u16_le ◌>>=◌
  read_u16_le_in h = rw (byte_at_in bytes i (omega arith), byte_at_in bytes (i + 1) (omega arith))

  pub read_u32_le_in : i + 4 ≤ length bytes → read_u32_le bytes i ≡ success (u32_of bytes i)
  unfolding read_u32_le ◌>>=◌
  read_u32_le_in h = rw (
    byte_at_in bytes i (omega arith),
    byte_at_in bytes (i + 1) (omega arith),
    byte_at_in bytes (i + 2) (omega arith),
    byte_at_in bytes (i + 3) (omega arith),
  )

module _ (bytes : List ℕ) (i : ℕ) where
  pub read_u64_le_in : i + 8 ≤ length bytes → read_u64_le bytes i ≡ success (u64_of bytes i)
  unfolding read_u64_le ◌>>=◌
  read_u64_le_in h =
      rw (read_u32_le_in bytes i (omega arith), read_u32_le_in bytes (i + 4) (omega arith))

module _ (bytes : List ℕ) (i : ℕ) where
  pub read_file_id_in : i + 16 ≤ length bytes → read_file_id bytes i ≡ success (file_id_of bytes i)
  unfolding read_file_id ◌>>=◌
  read_file_id_in h =
      rw (read_u64_le_in bytes i (omega arith), read_u64_le_in bytes (i + 8) (omega arith))

pub slice_in :
    (bytes : List ℕ) (from to : ℕ)
    → from ≤ to
    → to ≤ length bytes
    → slice bytes from to ≡ success (take (to - from) (drop from bytes))
unfolding slice
slice_in bytes from to h k = ground arith
