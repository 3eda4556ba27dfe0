-- ===== src/Protocol/Notify/Safety.antt =====
-- decodeChangeNotifyResponse of Protocol.cpp on any message.
use smb_browser.Base.{
  List, ap, arith, false, length, ltb, not, refl, ℕ, ◌%◌, ◌&&◌, ◌+◌, ◌<◌, ◌==◌, ◌^◌, ◌||◌, ◌≡◌, ◌≤◌,
  ◌⊎◌,
}
use smb_browser.Protocol.Buffers.Safety.{
  IsInside, buffer_of, inside_bound, out_of_bounds-IsInside, output_end, slice_buffer,
}
use smb_browser.Protocol.Chain.Walk.{Chain, chained-Ensures}
use smb_browser.Protocol.Header.{Smb2SyncHeader}
use smb_browser.Protocol.Header.Responses.{
  Ensures-require_status, HasFixedPart, IsResponse, WithHeader, fixed_response-Ensures,
  response_header-Ensures,
}
use smb_browser.Protocol.Notify.{
  ChangeNotifyEntry, ChangeNotifyResponse, change_notify_kind, decode_change_notify_response,
  notify_entry,
}
use smb_browser.Protocol.Status.{status_notify_enum_dir, status_success}
use smb_browser.Protocol.Utf16.{decode_utf16_le}
use smb_browser.Protocol.Utf16.Total.{decode_utf16_le-ne-fault}
use smb_browser.Wire.{success, ◌>>=◌}
use smb_browser.Wire.Reads.{
  Ensures, Ensures-bind, Ensures-reject_if, Ensures-self, Ensures-then, read_u16_le_in,
  read_u32_le_in, u16_of, u32_of,
}

-- The entry at `offset` lies before `end` with its name, and the next one behind it, 4-aligned.
pub record IsNotifyEntry (bytes : List ℕ) (end offset next : ℕ) (e : ChangeNotifyEntry)
    : Type 0 where
  pub next_offset : next ≡ u32_of bytes offset
  pub name_inside : offset + 12 + u32_of bytes (offset + 8) ≤ end
  pub next_behind :
      (next ≡ 0)
      ⊎ ((next % 4 ≡ 0) × (12 + u32_of bytes (offset + 8) ≤ next) × (offset + next ≤ end))
  pub name :
      decode_utf16_le (buffer_of bytes (offset + 12) (u32_of bytes (offset + 8))) ≡ success e.name
  pub action : e.action ≡ u32_of bytes (offset + 4)

-- What the tests of a round establish.
linked_notify_entry :
    (next name_length offset end : ℕ)
    → offset + 12 + name_length ≤ end
    → end < 2 ^ 32
    → (not (next == 0)
        && (not (next % 4 == 0)
            || (ltb next ((12 + name_length) % 4294967296) || ltb end (offset + next))))
      ≡ false
    → (next ≡ 0) ⊎ ((next % 4 ≡ 0) × (12 + name_length ≤ next) × (offset + next ≤ end))
linked_notify_entry next name_length offset end fits small h = ground arith

notify_entry-Ensures :
    (bytes : List ℕ) (end : ℕ)
    → end ≤ length bytes
    → end < 2 ^ 32
    → (offset : ℕ) → offset < end
    → Ensures (λ (next, e). IsNotifyEntry bytes end offset next e) (notify_entry bytes end offset)
unfolding notify_entry ◌>>=◌
notify_entry-Ensures bytes end fits small offset low = Ensures-reject_if Q _ _ _ _ λ long.
    let room : offset + 12 ≤ length bytes = ground arith in
    rw (read_u32_le_in bytes offset (omega arith), read_u32_le_in bytes (offset + 8) (omega arith))
      (Ensures-reject_if Q _ _ _ _ λ named. Ensures-reject_if Q _ _ _ _ λ linked.
        let name_fits : offset + 12 + u32_of bytes (offset + 8) ≤ end = ground arith in
        rw (slice_buffer bytes (offset + 12) (u32_of bytes (offset + 8)) (omega arith)) (
          Ensures-bind
            (λ t.
              decode_utf16_le (buffer_of bytes (offset + 12) (u32_of bytes (offset + 8)))
              ≡ success t)
            Q _ _
            (Ensures-self _
              (decode_utf16_le-ne-fault (buffer_of bytes (offset + 12) (u32_of bytes (offset + 8))))
              _ (λ t e. e))
            λ t decoded. rw (read_u32_le_in bytes (offset + 4) (omega arith)) (record {
              next_offset = refl;
              name_inside = name_fits;
              next_behind = linked_notify_entry _ _ offset end name_fits small linked;
              name = decoded;
              action = refl;
            })))
  where
    Q : ℕ × ChangeNotifyEntry → Type 0
    Q (next, e) = IsNotifyEntry bytes end offset next e

-- What is accepted: a response of the server that succeeded, or says that the directory is to be
-- read again, with the chain of entries that stands in the announced part of the message.
pub record IsChangeNotify (bytes : List ℕ) (r : ChangeNotifyResponse) : Type 0 where
  pub response : IsResponse change_notify_kind bytes
  pub fixed_part : HasFixedPart change_notify_kind bytes
  pub status_read : r.status ≡ u32_of bytes 8
  pub status : (r.status ≡ status_success) ⊎ (r.status ≡ status_notify_enum_dir)
  pub inside : IsInside (u16_of bytes 66) (u32_of bytes 68) bytes
  pub chain :
      Chain (IsNotifyEntry bytes (output_end bytes)) (output_end bytes) (u16_of bytes 66) r.entries

-- On every message below 4 GiB, decodeChangeNotifyResponse reads inside the buffer and its loop
-- ends. It accepts only a CHANGE_NOTIFY response of the server that succeeded or reports
-- STATUS_NOTIFY_ENUM_DIR, and returns the entries of the chain that stands in the announced
-- part, in order, each with its name inside that part and the next entry behind it, a multiple
-- of 4 further.
pub decode_change_notify_response-Ensures :
    (bytes : List ℕ)
    → length bytes < 2 ^ 32
    → Ensures (IsChangeNotify bytes) (decode_change_notify_response bytes)
unfolding decode_change_notify_response ◌>>=◌
decode_change_notify_response-Ensures bytes small =
    Ensures-bind (WithHeader (IsResponse change_notify_kind) bytes) (IsChangeNotify bytes) _ _
      (response_header-Ensures change_notify_kind bytes)
      λ h (same, found). Ensures-require_status (IsChangeNotify bytes) _ _ _ _ λ accepted.
        Ensures-then (IsChangeNotify bytes) (HasFixedPart change_notify_kind bytes) _ _
          (fixed_response-Ensures change_notify_kind bytes (omega arith))
          λ fixed.
            rw (read_u16_le_in bytes 66 (omega arith), read_u32_le_in bytes 68 (omega arith))
              (Ensures-reject_if (IsChangeNotify bytes) _ _ _ _ λ i.
                let inside : IsInside (u16_of bytes 66) (u32_of bytes 68) bytes =
                  out_of_bounds-IsInside _ _ bytes i in
                Ensures-bind
                  (Chain (IsNotifyEntry bytes (output_end bytes)) (output_end bytes)
                    (u16_of bytes 66))
                  (IsChangeNotify bytes) _ _
                  (chained-Ensures (IsNotifyEntry bytes (output_end bytes))
                    (notify_entry bytes (output_end bytes)) (u16_of bytes 66) (output_end bytes)
                    (λ o from low.
                      let fits : output_end bytes ≤ length bytes =
                        inside_bound _ _ o bytes inside from low in
                      notify_entry-Ensures bytes (output_end bytes) fits (omega arith) o low)
                    (u32_of bytes 68) (u16_of bytes 66) (omega arith) (omega arith))
                  λ entries chain. record {
                    response = found;
                    fixed_part = fixed;
                    status_read = ap (λ (x : Smb2SyncHeader). x.status) same;
                    status = ground arith;
                    inside = inside;
                    chain = chain;
                  })
