-- ===== src/Protocol/Directory/Safety.antt =====
-- decodeQueryDirectoryResponse of Protocol.cpp on any message.
use smb_browser.Base.{
  ==→eq, Bool-cases, ap, if◌then◌else◌, inl, inr, sym, true, ◌∙◌, [], refl, false, ltb, ◌%◌, ◌&&◌,
  ◌^◌, ◌||◌, List, arith, bit_and, length, not, ℕ, ◌+◌, ◌<◌, ◌==◌, ◌≡◌, ◌≤◌, ◌⊎◌,
}
use smb_browser.Protocol.Buffers.Safety.{
  inside_bound, output_end, out_of_bounds-IsInside, IsInside, slice_buffer, buffer_of,
}
use smb_browser.Protocol.Chain.Walk.{Chain, chained-Ensures}
use smb_browser.Protocol.Directory.{
  decode_query_directory_response, QueryDirectoryResponse, query_directory_kind,
  query_directory_page, DirectoryEntry, directory_entry,
}
use smb_browser.Protocol.Header.{Smb2SyncHeader}
use smb_browser.Protocol.Header.Responses.{
  IsResponse, WithHeader, response_header-Ensures, Ensures-require_status, HasFixedPart,
  fixed_response-Ensures, header_of,
}
use smb_browser.Protocol.Status.{status_no_more_files, status_success}
use smb_browser.Protocol.Utf16.{decode_utf16_le}
use smb_browser.Protocol.Utf16.Total.{decode_utf16_le-ne-fault}
use smb_browser.Wire.{success, ◌>>=◌}
use smb_browser.Wire.Reads.{
  Ensures-weaken, Ensures-then, read_u16_le_in, read_u64_le_in, u16_of, Ensures-bind, Ensures-self,
  Ensures, Ensures-reject_if, read_u32_le_in, u32_of, u64_of,
}

-- The entry at `offset` lies before `end` with its name, and the next one behind it.
pub record IsEntry (bytes : List ℕ) (end offset next : ℕ) (e : DirectoryEntry) : Type 0 where
  pub next_offset : next ≡ u32_of bytes offset
  pub name_inside : offset + 104 + u32_of bytes (offset + 60) ≤ end
  pub next_behind : (next ≡ 0) ⊎ ((104 + u32_of bytes (offset + 60) ≤ next) × (offset + next ≤ end))
  pub name :
      decode_utf16_le (buffer_of bytes (offset + 104) (u32_of bytes (offset + 60))) ≡ success e.name
  pub file_index : e.file_index ≡ u32_of bytes (offset + 4)
  pub creation_time : e.creation_time ≡ u64_of bytes (offset + 8)
  pub last_access_time : e.last_access_time ≡ u64_of bytes (offset + 16)
  pub last_write_time : e.last_write_time ≡ u64_of bytes (offset + 24)
  pub change_time : e.change_time ≡ u64_of bytes (offset + 32)
  pub allocation_size : e.allocation_size ≡ u64_of bytes (offset + 48)
  pub ea_size_or_reparse_tag : e.ea_size_or_reparse_tag ≡ u32_of bytes (offset + 64)
  pub is_reparse_point : e.is_reparse_point ≡ not (bit_and (u32_of bytes (offset + 56)) 0x400 == 0)
  pub end_of_file : e.end_of_file ≡ u64_of bytes (offset + 40)
  pub file_attributes : e.file_attributes ≡ u32_of bytes (offset + 56)
  pub file_id : e.file_id ≡ u64_of bytes (offset + 96)
  pub is_directory : e.is_directory ≡ not (bit_and (u32_of bytes (offset + 56)) 0x10 == 0)

-- What the tests of a round establish.
linked_entry :
    (next name_length offset end : ℕ)
    → offset + 104 + name_length ≤ end
    → end < 2 ^ 32
    → (not (next == 0) && (ltb next ((104 + name_length) % 4294967296) || ltb end (offset + next)))
      ≡ false
    → (next ≡ 0) ⊎ ((104 + name_length ≤ next) × (offset + next ≤ end))
linked_entry next name_length offset end fits small h = ground arith

directory_entry-Ensures :
    (bytes : List ℕ) (end : ℕ)
    → end ≤ length bytes
    → end < 2 ^ 32
    → (offset : ℕ) → offset < end
    → Ensures (λ (next, e). IsEntry bytes end offset next e) (directory_entry bytes end offset)
unfolding directory_entry ◌>>=◌
directory_entry-Ensures bytes end fits small offset low = Ensures-reject_if Q _ _ _ _ λ long.
    let room : offset + 104 ≤ length bytes = ground arith in
    rw (read_u32_le_in bytes offset (omega arith), read_u32_le_in bytes (offset + 60) (omega arith))
      (Ensures-reject_if Q _ _ _ _ λ named. Ensures-reject_if Q _ _ _ _ λ linked.
        let name_fits : offset + 104 + u32_of bytes (offset + 60) ≤ end = ground arith in
        rw (slice_buffer bytes (offset + 104) (u32_of bytes (offset + 60)) (omega arith)) (
          Ensures-bind
            (λ t.
              decode_utf16_le (buffer_of bytes (offset + 104) (u32_of bytes (offset + 60)))
              ≡ success t)
            Q _ _
            (Ensures-self _
              (decode_utf16_le-ne-fault
                (buffer_of bytes (offset + 104) (u32_of bytes (offset + 60))))
              _ (λ t e. e))
            λ t decoded.
              rw
                (
                  read_u32_le_in bytes (offset + 4) (omega arith),
                  read_u64_le_in bytes (offset + 8) (omega arith),
                  read_u64_le_in bytes (offset + 16) (omega arith),
                  read_u64_le_in bytes (offset + 24) (omega arith),
                  read_u64_le_in bytes (offset + 32) (omega arith),
                  read_u64_le_in bytes (offset + 40) (omega arith),
                  read_u64_le_in bytes (offset + 48) (omega arith),
                  read_u32_le_in bytes (offset + 56) (omega arith),
                  read_u32_le_in bytes (offset + 64) (omega arith),
                  read_u64_le_in bytes (offset + 96) (omega arith),
                )
                (record {
                  next_offset = refl;
                  name_inside = name_fits;
                  next_behind = linked_entry _ _ offset end name_fits small linked;
                  name = decoded;
                  file_index = refl;
                  creation_time = refl;
                  last_access_time = refl;
                  last_write_time = refl;
                  change_time = refl;
                  allocation_size = refl;
                  ea_size_or_reparse_tag = refl;
                  is_reparse_point = refl;
                  end_of_file = refl;
                  file_attributes = refl;
                  file_id = refl;
                  is_directory = refl;
                })))
  where
    Q : ℕ × DirectoryEntry → Type 0
    Q (next, e) = IsEntry bytes end offset next e

-- What is accepted: a response of the server that either says that there are no more files, or lists
-- the chain of entries that stands in the announced part of the message.
pub data IsQueryDirectory (bytes : List ℕ) (r : QueryDirectoryResponse) : Type 0 where
  no_more :
      u32_of bytes 8 ≡ status_no_more_files
      → r.status ≡ status_no_more_files
      → r.entries ≡ []
      → IsQueryDirectory bytes r
  page :
      u32_of bytes 8 ≡ status_success
      → r.status ≡ status_success
      → HasFixedPart query_directory_kind bytes
      → IsInside (u16_of bytes 66) (u32_of bytes 68) bytes
      → Chain (IsEntry bytes (output_end bytes)) (output_end bytes) (u16_of bytes 66) r.entries
      → IsQueryDirectory bytes r

query_directory_page-Ensures :
    (bytes : List ℕ) (h : Smb2SyncHeader)
    → length bytes < 2 ^ 32
    → h ≡ header_of bytes
    → Ensures (IsQueryDirectory bytes) (query_directory_page h bytes)
unfolding query_directory_page ◌>>=◌
query_directory_page-Ensures bytes h small same = Ensures-require_status Q _ _ _ _ λ accepted.
    Ensures-then Q (HasFixedPart query_directory_kind bytes) _ _
      (fixed_response-Ensures query_directory_kind bytes (omega arith))
      λ fixed.
        rw (read_u16_le_in bytes 66 (omega arith), read_u32_le_in bytes 68 (omega arith))
          (Ensures-reject_if Q _ _ _ _ λ i.
            let inside : IsInside (u16_of bytes 66) (u32_of bytes 68) bytes =
              out_of_bounds-IsInside _ _ bytes i in
            Ensures-bind
              (Chain (IsEntry bytes (output_end bytes)) (output_end bytes) (u16_of bytes 66)) Q _ _
              (chained-Ensures (IsEntry bytes (output_end bytes))
                (directory_entry bytes (output_end bytes)) (u16_of bytes 66) (output_end bytes)
                (λ o from low.
                  let fits : output_end bytes ≤ length bytes =
                    inside_bound _ _ o bytes inside from low in
                  directory_entry-Ensures bytes (output_end bytes) fits (omega arith) o low)
                (u32_of bytes 68) (u16_of bytes 66) (omega arith) (omega arith))
              λ entries chain.
                page (ap (λ (x : Smb2SyncHeader). x.status) (sym same) ∙ ==→eq _ _ accepted)
                  (==→eq _ _ accepted) fixed inside chain)
  where
    Q : QueryDirectoryResponse → Type 0
    Q = IsQueryDirectory bytes

-- On every message below 4 GiB, decodeQueryDirectoryResponse reads inside the buffer and its
-- loop ends. It accepts only a QUERY_DIRECTORY response of the server that says that there are
-- no more files, with no entry, or that succeeded; then it returns the entries of the chain
-- that stands in the announced part, in order, each with its name inside that part, the fields
-- at their offsets, and the next entry behind it.
pub decode_query_directory_response-Ensures :
    (bytes : List ℕ)
    → length bytes < 2 ^ 32
    → Ensures
        (λ r. IsResponse query_directory_kind bytes × IsQueryDirectory bytes r)
        (decode_query_directory_response bytes)
unfolding decode_query_directory_response
decode_query_directory_response-Ensures bytes small =
    Ensures-bind (WithHeader (IsResponse query_directory_kind) bytes) Q _ _
      (response_header-Ensures query_directory_kind bytes)
      λ h (same, found). branch h same found (Bool-cases (h.status == status_no_more_files))
  where
    Q : QueryDirectoryResponse → Type 0
    Q r = IsResponse query_directory_kind bytes × IsQueryDirectory bytes r

    branch :
        (h : Smb2SyncHeader)
        → h ≡ header_of bytes
        → IsResponse query_directory_kind bytes
        → ((h.status == status_no_more_files) ≡ true) ⊎ ((h.status == status_no_more_files) ≡ false)
        → Ensures Q (
            if h.status == status_no_more_files
            then success (record { status = h.status; entries = [] })
            else query_directory_page h bytes)
    branch h same found (inl e) = rw e (
      found,
      no_more (ap (λ (x : Smb2SyncHeader). x.status) (sym same) ∙ ==→eq _ _ e) (==→eq _ _ e) refl,
    )
    branch h same found (inr e) = rw e (
        Ensures-weaken (query_directory_page h bytes)
          (query_directory_page-Ensures bytes h small same) (λ r p. (found, p)))
