-- ===== src/Protocol/Ea/RoundTrip.antt =====
-- One entry as buildFileFullEaInformation of Protocol.cpp lays it out, and how it is read back.
use smb_browser.Base.{
  length-append, take, take_append, Bool, List, [], ap, arith, bit_and, false, if◌then◌else◌,
  length, not, refl, true, ℕ, ◌%◌, ◌++◌, ◌+◌, ◌/◌, ◌<◌, ◌==◌, ◌^◌, ◌∙◌, ◌∷◌, ◌≡◌, ◌≤◌, ◌⊎◌,
}
use smb_browser.Protocol.Buffers.Safety.{buffer_of}
use smb_browser.Protocol.Ea.{FileFullEaInformation, read_ea_entry}
use smb_browser.Protocol.Ea.Walk.{read_ea_entry_total}
use smb_browser.Wire.{success}
use smb_browser.Wire.Behind.{byte_of_behind, drop_behind}
use smb_browser.Wire.Reads.{u16_of, u32_of, byte_of}
use smb_browser.Wire.Words.{u32_joined}

-- What the builder accepts of an entry.
pub record IsEa (e : FileFullEaInformation) : Type 0 where
  pub name_low : 0 < length e.name
  pub name_high : length e.name < 256
  pub value_high : length e.value < 65536

-- The bytes of an entry that announces the next one at `next`, with `tail` behind its value.
abbrev pub laid_out : ℕ → FileFullEaInformation → List ℕ → List ℕ
laid_out next e tail =
    next % 256
    ∷ next / 256 % 256
    ∷ next / 65536 % 256
    ∷ next / 16777216 % 256
    ∷ (if e.need_ea then 0x80 else 0)
    ∷ length e.name
    ∷ length e.value % 256
    ∷ length e.value / 256
    ∷ (e.name ++ (0 ∷ (e.value ++ tail)))

flag_read : (b : Bool) → not (bit_and (if b then 0x80 else 0) 0x80 == 0) ≡ b
flag_read true = refl
flag_read false = refl

module _ (front : List ℕ) (next : ℕ) (e : FileFullEaInformation) (tail : List ℕ) where
  abbrev entry_bytes : List ℕ
  entry_bytes = front ++ laid_out next e tail

  -- The eight bytes of the fixed header.
  abbrev header_bytes : List ℕ
  header_bytes =
      next % 256
      ∷ next / 256 % 256
      ∷ next / 65536 % 256
      ∷ next / 16777216 % 256
      ∷ (if e.need_ea then 0x80 else 0)
      ∷ length e.name
      ∷ length e.value % 256
      ∷ length e.value / 256
      ∷ []

  fixed_byte : (k : ℕ) → byte_of entry_bytes (length front + k) ≡ byte_of (laid_out next e tail) k
  fixed_byte k = byte_of_behind front (laid_out next e tail) (length front + k) k refl

  next_read : next < 2 ^ 32 → u32_of entry_bytes (length front) ≡ next
  next_read small =
      rw
        (
          byte_of_behind front (laid_out next e tail) (length front) 0 (omega arith),
          fixed_byte 1,
          fixed_byte 2,
          fixed_byte 3,
        )
        (u32_joined next small)

  value_length_read : IsEa e → u16_of entry_bytes (length front + 6) ≡ length e.value
  value_length_read v =
      rw
        (
          fixed_byte 6,
          byte_of_behind front (laid_out next e tail) (length front + 6 + 1) 7 (omega arith),
        )
        (omega arith)

  name_end_read : byte_of entry_bytes (length front + 8 + length e.name) ≡ 0
  name_end_read =
      byte_of_behind front (laid_out next e tail) _ (8 + length e.name) (omega arith)
      ∙ byte_of_behind header_bytes (e.name ++ (0 ∷ (e.value ++ tail))) _ (length e.name)
          (omega arith)
      ∙ byte_of_behind e.name (0 ∷ (e.value ++ tail)) _ 0 (omega arith)

  name_read : buffer_of entry_bytes (length front + 8) (length e.name) ≡ e.name
  name_read =
      ap (take (length e.name))
        (drop_behind front (laid_out next e tail) (length front + 8) 8 (omega arith))
      ∙ take_append e.name (0 ∷ (e.value ++ tail)) (length e.name) refl

  value_read :
      buffer_of entry_bytes (length front + 8 + length e.name + 1) (length e.value) ≡ e.value
  value_read =
      ap (take (length e.value)) (
        drop_behind front (laid_out next e tail) (length front + 8 + length e.name + 1)
          (8 + length e.name + 1) (omega arith)
        ∙ drop_behind header_bytes (e.name ++ (0 ∷ (e.value ++ tail))) (8 + length e.name + 1)
            (length e.name + 1) (omega arith)
        ∙ drop_behind e.name (0 ∷ (e.value ++ tail)) (length e.name + 1) 1 (omega arith))
      ∙ take_append e.value tail (length e.value) refl

  entry_fits : length front + 8 + length e.name + 1 + length e.value ≤ length entry_bytes
  entry_fits = omega (
    arith,
    length-append front (laid_out next e tail),
    length-append e.name (0 ∷ (e.value ++ tail)),
    length-append e.value tail,
  )

  -- Such an entry is read back, wherever it stands.
  pub read_laid_out :
      IsEa e
      → next < 2 ^ 32
      → (next ≡ 0) ⊎ ((8 ≤ next) × (length front + next ≤ length entry_bytes))
      → read_ea_entry entry_bytes (length front) ≡ success (next, e)
  read_laid_out v small linked =
      read_ea_entry_total entry_bytes (length front)
        (rw (fixed_byte 5, value_length_read v) entry_fits) (rw (fixed_byte 5) name_end_read)
        (rw (next_read small) linked)
      ∙ rw
          (
            next_read small,
            fixed_byte 5,
            value_length_read v,
            fixed_byte 4,
            name_read,
            value_read,
            flag_read e.need_ea,
          )
          refl
