-- ===== src/Dfs/Safety.antt =====
-- decodeDfsReferralResponse of src/native_smb/DfsReferral.cpp reads inside its buffer.
use smb_browser.Base.{
  [], ◌∷◌, ==→eq, Bool-cases, arith, inl, inr, length, ltb, ltb→lt, not_ltb→le, or_false, refl, suc,
  zero, ◌<◌, ◌==◌, ◌||◌, ◌≡◌, ◌≤◌, List, ℕ, ◌+◌,
}
use smb_browser.Client.Exchangers.Sends.{Any}
use smb_browser.Client.Safety.Rules.{counted}
use smb_browser.Dfs.{
  DfsReferralResponse, decode_dfs_referral_response, referral_entries, DfsReferralEntry,
  decode_referral_entry, fields_v2, fields_v3, read_optional_string, read_referral_string,
  referral_fields, relabelled, string_end,
}
use smb_browser.Protocol.Utf16.Total.{decode_utf16_le-ne-fault}
use smb_browser.Wire.{DecodeResult, failure, fault, success}
use smb_browser.Wire.Reads.{
  u32_of, Ensures, Ensures-bind, Ensures-reject_if, Ensures-self, Ensures-step, read_u16_le_in,
  read_u32_le_in, slice_in, u16_of,
}

-- The place of a NUL behind `start`.
abbrev IsEnd : List ℕ → ℕ → ℕ → Type 0
IsEnd bytes start e = (start ≤ e) × (e + 2 ≤ length bytes) × (u16_of bytes e ≡ 0)

string_end-Ensures :
    (rounds : ℕ) (bytes : List ℕ) (start end : ℕ)
    → start ≤ end
    → 1 ≤ rounds
    → length bytes < end + rounds
    → Ensures (IsEnd bytes start) (string_end rounds bytes end)
unfolding string_end
string_end-Ensures zero bytes start end low some_left enough = absurd (omega arith)
string_end-Ensures (suc rounds) bytes start end low some_left enough =
    elim (Bool-cases (ltb (end + 1) (length bytes))) [
      | inr e ↦ rw (e, string_end) tt
      | inl e ↦
          let inside = ltb→lt (end + 1) (length bytes) e in
          rw (e, string_end)
            (Ensures-step (IsEnd bytes start) _ (read_u16_le_in bytes end (omega arith))
              (elim (Bool-cases (u16_of bytes end == 0)) [
                | inl z ↦ rw z (low, omega arith, ==→eq (u16_of bytes end) 0 z)
                | inr z ↦ rw z (
                    string_end-Ensures rounds bytes start (end + 2) (omega arith) (omega arith)
                      (omega arith))
              ]))
    ]

read_referral_string-Ensures :
    (bytes : List ℕ) (offset : ℕ) → Ensures Any (read_referral_string bytes offset)
unfolding read_referral_string
read_referral_string-Ensures bytes offset = Ensures-reject_if Any _ _ _ _ λ inside.
    Ensures-bind (IsEnd bytes offset) Any _ _
      (string_end-Ensures (suc (length bytes)) bytes offset offset (omega arith) (omega arith)
        (omega arith))
      λ end (low, high, nul).
        Ensures-step Any _ (slice_in bytes offset end low (omega arith))
          (Ensures-self _ (decode_utf16_le-ne-fault _) Any λ a e. tt)

relabelled-Ensures : {A : Type 0} (r : DecodeResult A) → Ensures Any r → Ensures Any (relabelled r)
unfolding relabelled
relabelled-Ensures (success a) h = h
relabelled-Ensures (failure e) h = h
relabelled-Ensures fault h = h

read_optional_string-Ensures :
    (bytes : List ℕ) (o string_offset : ℕ)
    → Ensures Any (read_optional_string bytes o string_offset)
unfolding read_optional_string
read_optional_string-Ensures bytes o string_offset = elim (Bool-cases (string_offset == 0)) [
  | inl e ↦ rw e tt
  | inr e ↦ rw e (relabelled-Ensures _ (read_referral_string-Ensures bytes (o + string_offset)))
]

module _ (bytes : List ℕ) (o entry_size : ℕ) (inside : o + entry_size ≤ length bytes) where
  fields_v2-Ensures : Ensures Any (fields_v2 bytes o entry_size)
  unfolding fields_v2
  fields_v2-Ensures = Ensures-reject_if Any _ _ _ _ λ long.
      let size = not_ltb→le entry_size 22 long in
      Ensures-step Any _ (read_u16_le_in bytes (o + 4) (omega arith)) (
        Ensures-step Any _ (read_u16_le_in bytes (o + 6) (omega arith)) (
          Ensures-step Any _ (read_u32_le_in bytes (o + 12) (omega arith)) (
            Ensures-step Any _ (read_u16_le_in bytes (o + 16) (omega arith)) (
              Ensures-step Any _ (read_u16_le_in bytes (o + 18) (omega arith))
                (Ensures-step Any _ (read_u16_le_in bytes (o + 20) (omega arith)) tt)))))

  fields_v3-Ensures : Ensures Any (fields_v3 bytes o entry_size)
  unfolding fields_v3
  fields_v3-Ensures = Ensures-reject_if Any _ _ _ _ λ long.
      let size = not_ltb→le entry_size 34 long in
      Ensures-step Any _ (read_u16_le_in bytes (o + 4) (omega arith)) (
        Ensures-step Any _ (read_u16_le_in bytes (o + 6) (omega arith)) (
          Ensures-step Any _ (read_u32_le_in bytes (o + 8) (omega arith)) (
            Ensures-step Any _ (read_u16_le_in bytes (o + 12) (omega arith)) (
              Ensures-step Any _ (read_u16_le_in bytes (o + 14) (omega arith))
                (Ensures-step Any _ (read_u16_le_in bytes (o + 16) (omega arith)) tt)))))

  referral_fields-Ensures : (version : ℕ) → Ensures Any (referral_fields version bytes o entry_size)
  unfolding referral_fields
  referral_fields-Ensures version = elim (Bool-cases (version == 2)) [
    | inl e ↦ rw e fields_v2-Ensures
    | inr e ↦ elim (Bool-cases (version == 3 || version == 4)) [
      | inl h ↦ rw (e, h) fields_v3-Ensures
      | inr h ↦ rw (e, h) tt
    ]
  ]

-- An entry has the version and a size that stand in front of it.
decode_referral_entry-Ensures :
    (bytes : List ℕ) (o : ℕ)
    → Ensures
        (λ e. (e.version ≡ u16_of bytes o) × (o + u16_of bytes (o + 2) ≤ length bytes))
        (decode_referral_entry bytes o)
unfolding decode_referral_entry
decode_referral_entry-Ensures bytes o =
    let Q = λ (e : DfsReferralEntry).
      (e.version ≡ u16_of bytes o) × (o + u16_of bytes (o + 2) ≤ length bytes) in
    Ensures-reject_if Q _ _ _ _ λ long.
      let size = not_ltb→le (length bytes) (o + 4) long in
      Ensures-step Q _ (read_u16_le_in bytes o (omega arith)) (
        Ensures-step Q _ (read_u16_le_in bytes (o + 2) (omega arith)) (
          Ensures-reject_if Q _ _ _ _ λ sized.
            let inside =
              not_ltb→le (length bytes) (o + u16_of bytes (o + 2)) (or_false _ _ sized).1 in
            Ensures-bind Any Q _ _
              (referral_fields-Ensures bytes o (u16_of bytes (o + 2)) inside (u16_of bytes o))
              λ fields known.
                Ensures-bind Any Q _ _ (read_optional_string-Ensures bytes o _) λ path one.
                  Ensures-bind Any Q _ _ (read_optional_string-Ensures bytes o _) λ alternate two.
                    Ensures-bind Any Q _ _ (read_optional_string-Ensures bytes o _)
                      λ address three. (refl, inside)))

-- The entries stand one behind the other from `o` on, each as long as it says and inside the buffer.
abbrev pub LaidOut : List ℕ → ℕ → List DfsReferralEntry → Type 0
LaidOut bytes o [] = Unit {0}
LaidOut bytes o (e ∷ entries) =
    (e.version ≡ u16_of bytes o)
    × (o + u16_of bytes (o + 2) ≤ length bytes)
    × LaidOut bytes (o + u16_of bytes (o + 2)) entries

referral_entries-Ensures :
    (count : ℕ) (bytes : List ℕ) (o : ℕ)
    → Ensures
        (λ entries. (length entries ≡ count) × LaidOut bytes o entries)
        (referral_entries count bytes o)
unfolding referral_entries
referral_entries-Ensures zero bytes o = (refl, tt)
referral_entries-Ensures (suc count) bytes o =
    let Q =
      λ (entries : List DfsReferralEntry). (length entries ≡ suc count) × LaidOut bytes o entries in
    Ensures-reject_if Q _ _ _ _ λ long.
      let size = not_ltb→le (length bytes) (o + 4) long in
      Ensures-step Q _ (read_u16_le_in bytes (o + 2) (omega arith)) (
        Ensures-bind _ Q _ _ (decode_referral_entry-Ensures bytes o) λ entry (version, inside).
          Ensures-bind _ Q _ _ (referral_entries-Ensures count bytes (o + u16_of bytes (o + 2)))
            λ rest (counted, laid). (omega arith, (version, inside, laid)))

-- What the decoder returns for a buffer.
pub record IsReferrals (bytes : List ℕ) (r : DfsReferralResponse) : Type 0 where
  pub path_consumed_bytes : r.path_consumed_bytes ≡ u16_of bytes 0
  pub header_flags : r.header_flags ≡ u32_of bytes 4
  pub announced : length r.entries ≡ u16_of bytes 2
  pub laid_out : LaidOut bytes 8 r.entries

-- On every buffer, decodeDfsReferralResponse reads inside the buffer and its loops end. When it
-- accepts, the header fields are those at their offsets, it returns as many entries as the
-- header announces, and they stand one behind the other from byte 8 on, each with its version
-- in front and inside the buffer with the size that it states.
pub decode_dfs_referral_response-Ensures :
    (bytes : List ℕ) → Ensures (IsReferrals bytes) (decode_dfs_referral_response bytes)
unfolding decode_dfs_referral_response
decode_dfs_referral_response-Ensures bytes = Ensures-reject_if (IsReferrals bytes) _ _ _ _ λ long.
    let Q = IsReferrals bytes in
    let size = not_ltb→le (length bytes) 8 long in
    Ensures-step Q _ (read_u16_le_in bytes 0 (omega arith)) (
      Ensures-step Q _ (read_u16_le_in bytes 2 (omega arith)) (
        Ensures-step Q _ (read_u32_le_in bytes 4 (omega arith)) (
          Ensures-bind _ Q _ _ (referral_entries-Ensures (u16_of bytes 2) bytes 8)
            λ entries (counted, laid). record {
              path_consumed_bytes = refl;
              header_flags = refl;
              announced = counted;
              laid_out = laid;
            })))
