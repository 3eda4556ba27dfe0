-- ===== src/Protocol/Ea/Walk.antt =====
-- decodeFileFullEaInformation of Protocol.cpp on any buffer.
use smb_browser.Base.{
  leb, ◌&&◌, ◌||◌, false, le→not_ltb, ltb, ◌-◌, ==→eq, List, arith, bit_and, length, not, not-false,
  not_ltb→le, refl, ℕ, ◌+◌, ◌<◌, ◌==◌, ◌≡◌, ◌≤◌, ◌⊎◌,
}
use smb_browser.Protocol.Buffers.Safety.{buffer_of, slice_buffer}
use smb_browser.Protocol.Chain.Walk.{Chain, chained-Ensures}
use smb_browser.Protocol.Ea.{FileFullEaInformation, decode_file_full_ea_information, read_ea_entry}
use smb_browser.Wire.{reject_if, success, ◌>>◌, ◌>>=◌}
use smb_browser.Wire.Reads.{
  Ensures, Ensures-reject_if, byte_at_in, byte_of, read_u16_le_in, read_u32_le_in, u16_of, u32_of,
}

-- The entry at `offset` lies in the buffer, its name ends in a NUL, and the next one is 8 bytes or
-- more further, at most at the end of the buffer.
pub record IsEaEntry (bytes : List ℕ) (offset next : ℕ) (e : FileFullEaInformation) : Type 0 where
  pub next_offset : next ≡ u32_of bytes offset
  pub entry_inside :
      offset + 8 + byte_of bytes (offset + 5) + 1 + u16_of bytes (offset + 6) ≤ length bytes
  pub terminated : byte_of bytes (offset + 8 + byte_of bytes (offset + 5)) ≡ 0
  pub name : e.name ≡ buffer_of bytes (offset + 8) (byte_of bytes (offset + 5))
  pub value :
      e.value
      ≡ buffer_of bytes (offset + 8 + byte_of bytes (offset + 5) + 1) (u16_of bytes (offset + 6))
  pub need_ea : e.need_ea ≡ not (bit_and (byte_of bytes (offset + 4)) 0x80 == 0)
  pub next_behind : (next ≡ 0) ⊎ ((8 ≤ next) × (offset + next ≤ length bytes))

read_ea_entry-Ensures :
    (bytes : List ℕ) (offset : ℕ)
    → offset < length bytes
    → Ensures (λ (next, e). IsEaEntry bytes offset next e) (read_ea_entry bytes offset)
unfolding read_ea_entry ◌>>=◌
read_ea_entry-Ensures bytes offset low = Ensures-reject_if Q _ _ _ _ λ long.
    let room : offset + 8 ≤ length bytes = ground arith in
    rw
      (
        read_u32_le_in bytes offset (omega arith),
        byte_at_in bytes (offset + 4) (omega arith),
        byte_at_in bytes (offset + 5) (omega arith),
        read_u16_le_in bytes (offset + 6) (omega arith),
      )
      (Ensures-reject_if Q _ _ _ _ λ inside.
        let fits : offset + 8 + byte_of bytes (offset + 5) + 1 + u16_of bytes (offset + 6)
            ≤ length bytes =
          not_ltb→le _ _ inside in
        rw (byte_at_in bytes (offset + 8 + byte_of bytes (offset + 5)) (omega arith)) (
          Ensures-reject_if Q _ _ _ _ λ ended.
            rw
              (
                slice_buffer bytes (offset + 8) (byte_of bytes (offset + 5)) (omega arith),
                slice_buffer bytes (offset + 8 + byte_of bytes (offset + 5) + 1)
                    (u16_of bytes (offset + 6)) fits,
              )
              (Ensures-reject_if Q _ _ _ _ λ linked. record {
                next_offset = refl;
                entry_inside = fits;
                terminated = ==→eq _ _ (not-false _ ended);
                name = refl;
                value = refl;
                need_ea = refl;
                next_behind = ground arith;
              })))
  where
    Q : ℕ × FileFullEaInformation → Type 0
    Q (next, e) = IsEaEntry bytes offset next e

-- On every buffer, decodeFileFullEaInformation reads inside the buffer and its loop ends. What
-- it accepts is a chain of entries that lie in the buffer, each with a NUL behind its name and
-- the next one at least 8 bytes further, and it returns these entries in order.
pub decode_file_full_ea_information-Ensures :
    (bytes : List ℕ)
    → Ensures (Chain (IsEaEntry bytes) (length bytes) 0) (decode_file_full_ea_information bytes)
unfolding decode_file_full_ea_information
decode_file_full_ea_information-Ensures bytes =
    chained-Ensures (IsEaEntry bytes) (read_ea_entry bytes) 0 (length bytes)
      (λ o from low. read_ea_entry-Ensures bytes o low) (length bytes) 0 (omega arith) (omega arith)

-- The entry that stands at `offset`.
abbrev pub ea_entry_of : List ℕ → ℕ → FileFullEaInformation
ea_entry_of bytes offset = record {
  name = buffer_of bytes (offset + 8) (byte_of bytes (offset + 5));
  value = buffer_of bytes (offset + 8 + byte_of bytes (offset + 5) + 1) (u16_of bytes (offset + 6));
  need_ea = not (bit_and (byte_of bytes (offset + 4)) 0x80 == 0);
}

linked_ok :
    (next offset size : ℕ)
    → (next ≡ 0) ⊎ ((8 ≤ next) × (offset + next ≤ size))
    → (not (next == 0) && (ltb next 8 || (leb (offset + next) offset || ltb size (offset + next))))
      ≡ false
linked_ok next offset size h = ground arith

-- An entry that lies in the buffer, ends its name and announces the next one inside is read.
pub read_ea_entry_total :
    (bytes : List ℕ) (offset : ℕ)
    → offset + 8 + byte_of bytes (offset + 5) + 1 + u16_of bytes (offset + 6) ≤ length bytes
    → byte_of bytes (offset + 8 + byte_of bytes (offset + 5)) ≡ 0
    → (u32_of bytes offset ≡ 0)
      ⊎ ((8 ≤ u32_of bytes offset) × (offset + u32_of bytes offset ≤ length bytes))
    → read_ea_entry bytes offset ≡ success (u32_of bytes offset, ea_entry_of bytes offset)
unfolding read_ea_entry ◌>>=◌ ◌>>◌ reject_if
read_ea_entry_total bytes offset fits ended linked =
    let room : ltb (length bytes - offset) 8 ≡ false = ground arith in
    rw
      (
        room,
        read_u32_le_in bytes offset (omega arith),
        byte_at_in bytes (offset + 4) (omega arith),
        byte_at_in bytes (offset + 5) (omega arith),
        read_u16_le_in bytes (offset + 6) (omega arith),
        le→not_ltb _ _ fits,
        byte_at_in bytes (offset + 8 + byte_of bytes (offset + 5)) (omega arith),
        ended,
        slice_buffer bytes (offset + 8) (byte_of bytes (offset + 5)) (omega arith),
        slice_buffer bytes (offset + 8 + byte_of bytes (offset + 5) + 1) (u16_of bytes (offset + 6))
            fits,
      )
      (rw (linked_ok (u32_of bytes offset) offset (length bytes) linked))
