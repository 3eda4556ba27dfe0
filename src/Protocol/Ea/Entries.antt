-- ===== src/Protocol/Ea/Entries.antt =====
-- buildFileFullEaInformation and decodeFileFullEaInformation of Protocol.cpp on a list of entries.
use smb_browser.Base.{
  subst, inl, inr, length-append, length-replicate, suc, zero, ◌<◌, ◌^◌, ◌≤◌, ◌⊎◌, ◌%◌, ap,
  append_assoc, arith, All, Bool, List, [], false, if◌then◌else◌, is_empty, length, ltb, refl,
  replicate, true, ℕ, ◌*◌, ◌++◌, ◌+◌, ◌-◌, ◌/◌, ◌∙◌, ◌∷◌, ◌≡◌,
}
use smb_browser.Protocol.Chain.{chained}
use smb_browser.Protocol.Chain.Walk.{chained_final, chained_more}
use smb_browser.Protocol.Ea.{
  decode_file_full_ea_information, read_ea_entry, FileFullEaInformation,
  build_file_full_ea_information, ea_entry,
}
use smb_browser.Protocol.Ea.RoundTrip.{read_laid_out, IsEa, laid_out}
use smb_browser.Wire.{success, u8, Built, built, throw_if, u16_le, u32_le, with_built}

-- The entries, laid out one behind the other.
unfoldable pub ea_bytes : List FileFullEaInformation → List ℕ
ea_bytes [] = []
ea_bytes (e ∷ es) = ea_entry e (is_empty es) ++ ea_bytes es

built_entry :
    (e : FileFullEaInformation)
    → IsEa e
    → (later : Built)
    → throw_if (is_empty e.name) "SMB2 EA name is empty." (
        throw_if
          (ltb 0xff (length e.name))
          "SMB2 EA name is too large."
          (throw_if (ltb 0xffff (length e.value)) "SMB2 EA value is too large." later))
      ≡ later
unfolding throw_if
built_entry e v later = ground arith

build_ea_bytes :
    (es : List FileFullEaInformation)
    → All IsEa es
    → build_file_full_ea_information es ≡ built (ea_bytes es)
unfolding build_file_full_ea_information ea_bytes with_built
build_ea_bytes [] v = refl
build_ea_bytes (e ∷ es) (v, vs) = built_entry e v _ ∙ rw (build_ea_bytes es vs) refl

-- Where the entry behind this one begins, from its own start.
abbrev ea_next : FileFullEaInformation → Bool → ℕ
ea_next e true = 0
ea_next e false = (8 + length e.name + 1 + length e.value + 3) / 4 * 4

abbrev ea_tail : FileFullEaInformation → Bool → List ℕ
ea_tail e final =
    replicate
      ((if final then 8 + length e.name + 1 + length e.value else ea_next e false)
        - (8 + length e.name + 1 + length e.value))
      0

parts_behind :
    (name value tail later : List ℕ)
    → (name ++ (0 ∷ []) ++ value ++ tail) ++ later ≡ name ++ (0 ∷ (value ++ (tail ++ later)))
parts_behind [] value tail later = ap (◌∷◌ 0) (append_assoc value tail later)
parts_behind (c ∷ name) value tail later = ap (◌∷◌ c) (parts_behind name value tail later)

flag_byte : (b : Bool) → (if b then 0x80 else 0) % 256 ≡ (if b then 0x80 else 0)
flag_byte true = refl
flag_byte false = refl

laid_out_with :
    (e : FileFullEaInformation) (next : ℕ) (tail later : List ℕ)
    → IsEa e
    → (u32_le next
          ++ (u8 (if e.need_ea then 0x80 else 0)
              ++ u8 (length e.name)
              ++ u16_le (length e.value)
              ++ e.name
              ++ (0 ∷ [])
              ++ e.value
              ++ tail))
        ++ later
      ≡ laid_out next e (tail ++ later)
unfolding u32_le u16_le
laid_out_with e next tail later v =
    let name_byte : length e.name % 256 ≡ length e.name = omega arith in
    let value_byte : length e.value / 256 % 256 ≡ length e.value / 256 = omega arith in
    rw (flag_byte e.need_ea, name_byte, value_byte, parts_behind e.name e.value tail later) refl

ea_entry-laid_out :
    (e : FileFullEaInformation) (final : Bool) (later : List ℕ)
    → IsEa e
    → ea_entry e final ++ later ≡ laid_out (ea_next e final) e (ea_tail e final ++ later)
unfolding ea_entry u32_le u16_le
ea_entry-laid_out e true later v = laid_out_with e 0 (ea_tail e true) later v
ea_entry-laid_out e false later v = laid_out_with e (ea_next e false) (ea_tail e false) later v

length-laid_out :
    (next : ℕ) (e : FileFullEaInformation) (tail : List ℕ)
    → length (laid_out next e tail) ≡ 8 + length e.name + 1 + length e.value + length tail
length-laid_out next e tail =
    omega (arith, length-append e.name (0 ∷ (e.value ++ tail)), length-append e.value tail)

length-ea_tail :
    (e : FileFullEaInformation)
    → 8 + length e.name + 1 + length e.value + length (ea_tail e false) ≡ ea_next e false
length-ea_tail e =
    omega (
      arith,
      length-replicate {A = ℕ} (ea_next e false - (8 + length e.name + 1 + length e.value)) 0,
    )

-- The offset that an entry announces is 0 or lies behind its fixed part, inside the buffer.
next_linked :
    (front : List ℕ) (e : FileFullEaInformation) (final : Bool) (later : List ℕ)
    → (ea_next e final ≡ 0)
      ⊎ ((8 ≤ ea_next e final)
          × (length front + ea_next e final
              ≤ length (front ++ laid_out (ea_next e final) e (ea_tail e final ++ later))))
next_linked front e true later = inl refl
next_linked front e false later = inr (
  omega arith,
  omega (
    arith,
    length-append front (laid_out (ea_next e false) e (ea_tail e false ++ later)),
    length-laid_out (ea_next e false) e (ea_tail e false ++ later),
    length-append (ea_tail e false) later,
    length-ea_tail e,
  ),
)

next_small : (e : FileFullEaInformation) (final : Bool) → IsEa e → ea_next e final < 2 ^ 32
next_small e true v = omega arith
next_small e false v = omega arith

read_entry :
    (front : List ℕ) (e : FileFullEaInformation) (es : List FileFullEaInformation)
    → IsEa e
    → read_ea_entry (front ++ ea_bytes (e ∷ es)) (length front)
      ≡ success (ea_next e (is_empty es), e)
unfolding ea_bytes
read_entry front e es v = rw (ea_entry-laid_out e (is_empty es) (ea_bytes es) v) (
    read_laid_out front (ea_next e (is_empty es)) e (ea_tail e (is_empty es) ++ ea_bytes es) v
      (next_small e (is_empty es) v) (next_linked front e (is_empty es) (ea_bytes es)))

length-ea_entry : (e : FileFullEaInformation) → IsEa e → length (ea_entry e false) ≡ ea_next e false
length-ea_entry e v = omega (
  arith,
  length-laid_out (ea_next e false) e (ea_tail e false ++ []),
  length-append (ea_tail e false) [],
  length-ea_tail e,
  length-append (ea_entry e false) [],
  ap (length {A = ℕ}) (ea_entry-laid_out e false [] v),
)

-- The entries are longer than what lies behind the first one.
ea_bytes_longer :
    (e : FileFullEaInformation) (es : List FileFullEaInformation)
    → IsEa e
    → length (ea_bytes es) < length (ea_bytes (e ∷ es))
unfolding ea_bytes
ea_bytes_longer e es v = rw (ea_entry-laid_out e (is_empty es) (ea_bytes es) v) (
    omega (
      arith,
      length-laid_out (ea_next e (is_empty es)) e (ea_tail e (is_empty es) ++ ea_bytes es),
      length-append (ea_tail e (is_empty es)) (ea_bytes es),
    ))

begins_inside :
    (front : List ℕ) (e : FileFullEaInformation) (es : List FileFullEaInformation)
    → IsEa e
    → length front < length (front ++ ea_bytes (e ∷ es))
begins_inside front e es v =
    omega (arith, length-append front (ea_bytes (e ∷ es)), ea_bytes_longer e es v)

-- The rounds behind the first entry, seen from behind it.
moved_on :
    (front : List ℕ) (e e' : FileFullEaInformation) (es : List FileFullEaInformation) (fuel : ℕ)
    → IsEa e
    → chained
        (read_ea_entry (front ++ ea_entry e false ++ ea_bytes (e' ∷ es)))
        fuel
        (length (front ++ ea_entry e false))
        (length (front ++ ea_entry e false ++ ea_bytes (e' ∷ es)))
      ≡ success (e' ∷ es)
    → chained
        (read_ea_entry (front ++ ea_bytes (e ∷ e' ∷ es)))
        fuel
        (length front + ea_next e false)
        (length (front ++ ea_bytes (e ∷ e' ∷ es)))
      ≡ success (e' ∷ es)
unfolding ea_bytes
moved_on front e e' es fuel v h =
    let behind = front ++ ea_entry e false ++ ea_bytes (e' ∷ es) in
    let moved : length (front ++ ea_entry e false) ≡ length front + ea_next e false =
      omega (arith, length-append front (ea_entry e false), length-ea_entry e v) in
    subst
      (λ bytes.
        chained (read_ea_entry bytes) fuel (length front + ea_next e false) (length bytes)
        ≡ success (e' ∷ es))
      (append_assoc front (ea_entry e false) (ea_bytes (e' ∷ es)))
      (subst
        (λ start. chained (read_ea_entry behind) fuel start (length behind) ≡ success (e' ∷ es))
        moved h)

entries_chained :
    (front : List ℕ) (e : FileFullEaInformation) (es : List FileFullEaInformation) (fuel : ℕ)
    → IsEa e
    → All IsEa es
    → length (ea_bytes (e ∷ es)) ≤ fuel
    → chained
        (read_ea_entry (front ++ ea_bytes (e ∷ es)))
        fuel
        (length front)
        (length (front ++ ea_bytes (e ∷ es)))
      ≡ success (e ∷ es)
entries_chained front e es zero v vs enough = absurd (omega (arith, ea_bytes_longer e es v))
entries_chained front e [] (suc fuel) v vs enough =
    chained_final _ fuel _ _ e (begins_inside front e [] v) (read_entry front e [] v)
entries_chained front e (e' ∷ es) (suc fuel) v (v', vs) enough =
    chained_more _ fuel _ _ (ea_next e false) e (e' ∷ es) (begins_inside front e (e' ∷ es) v)
      (read_entry front e (e' ∷ es) v) (omega arith)
      (moved_on front e e' es fuel v (
        entries_chained (front ++ ea_entry e false) e' es fuel v' vs
          (omega (arith, ea_bytes_longer e (e' ∷ es) v))))

none_read : decode_file_full_ea_information (ea_bytes []) ≡ success []
unfolding decode_file_full_ea_information chained ea_bytes
none_read = refl

-- For every list of extended attributes whose names have 1 to 255 bytes and whose values have
-- at most 65535, buildFileFullEaInformation gives the entries laid out one behind the other,
-- each but the last padded to a multiple of 4, and decodeFileFullEaInformation turns them back
-- into the same list.
pub decode_file_full_ea_information-build :
    (es : List FileFullEaInformation)
    → All IsEa es
    → (build_file_full_ea_information es ≡ built (ea_bytes es))
      × (decode_file_full_ea_information (ea_bytes es) ≡ success es)
unfolding decode_file_full_ea_information
decode_file_full_ea_information-build [] v = (build_ea_bytes [] v, none_read)
decode_file_full_ea_information-build (e ∷ es) (v, vs) =
    (build_ea_bytes (e ∷ es) (v, vs), entries_chained [] e es _ v vs (omega arith))
