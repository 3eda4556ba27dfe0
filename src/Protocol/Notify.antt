-- ===== src/Protocol/Notify.antt =====
-- CHANGE_NOTIFY of Protocol.cpp.
pub mod Safety
use smb_browser.Base.{List, ltb, not, ℕ, ◌%◌, ◌&&◌, ◌++◌, ◌+◌, ◌-◌, ◌==◌, ◌||◌}
use smb_browser.Protocol.Buffers.{out_of_bounds}
use smb_browser.Protocol.Chain.{chained}
use smb_browser.Protocol.Header.{
  ResponseKind, encode_smb2_sync_header, fixed_response, request, require_status, response_header,
}
use smb_browser.Protocol.Status.{status_notify_enum_dir, status_success}
use smb_browser.Protocol.Transfer.{credit_charge}
use smb_browser.Protocol.Utf16.{decode_utf16_le}
use smb_browser.Wire.{
  Built, DecodeResult, FileId, built, file_id_le, io_error, read_u16_le, read_u32_le, reject_if,
  slice, success, u16_le, u32_le, ◌>>=◌, ◌>>◌,
}
use smb_browser.Protocol.Command

pub record ChangeNotifyRequestOptions : Type 0 where
  pub file_id : FileId
  pub flags : ℕ
  pub output_buffer_length : ℕ
  pub completion_filter : ℕ

pub record ChangeNotifyEntry : Type 0 where
  pub action : ℕ
  pub name : List ℕ

pub record ChangeNotifyResponse : Type 0 where
  pub status : ℕ
  pub output_buffer_offset : ℕ
  pub entries : List ChangeNotifyEntry

-- Unlike READ and WRITE this request asks for one credit whatever it is charged.
unfoldable pub build_change_notify_request : ChangeNotifyRequestOptions → ℕ → ℕ → ℕ → Built
build_change_notify_request options message_id tree_id session_id =
    let header = request Command.change_notify message_id tree_id session_id in
    built (
      encode_smb2_sync_header
        (record header { credit_charge = credit_charge options.output_buffer_length })
      ++ (u16_le 32
          ++ u16_le options.flags
          ++ u32_le options.output_buffer_length
          ++ file_id_le options.file_id
          ++ u32_le options.completion_filter
          ++ u32_le 0))

abbrev pub change_notify_kind : ResponseKind
change_notify_kind = record {
  command = Command.change_notify;
  article = "a";
  name = "CHANGE_NOTIFY";
  fixed_size = 8;
  structure_size = 9;
}

-- One round: the offset of the next entry, and the entry at `offset`. A uint32_t sum wraps.
unfoldable pub notify_entry : List ℕ → ℕ → ℕ → DecodeResult (ℕ × ChangeNotifyEntry)
notify_entry bytes end offset = do
  reject_if (ltb (end - offset) 12) io_error
      "FILE_NOTIFY_INFORMATION entry is shorter than fixed part."
  next ← read_u32_le bytes offset
  name_length ← read_u32_le bytes (offset + 8)
  reject_if (ltb end (offset + 12 + name_length) || ltb (offset + 12 + name_length) (offset + 12))
      io_error "FILE_NOTIFY_INFORMATION file name is out of bounds."
  reject_if
      (not (next == 0)
        && (not (next % 4 == 0)
            || (ltb next ((12 + name_length) % 4294967296) || ltb end (offset + next))))
      io_error "FILE_NOTIFY_INFORMATION next entry offset is invalid."
  encoded ← slice bytes (offset + 12) (offset + 12 + name_length)
  name ← decode_utf16_le encoded
  action ← read_u32_le bytes (offset + 4)
  success (next, record { action = action; name = name })

-- STATUS_NOTIFY_ENUM_DIR is accepted as well.
unfoldable pub decode_change_notify_response : List ℕ → DecodeResult ChangeNotifyResponse
decode_change_notify_response bytes = do
  header ← response_header change_notify_kind bytes
  require_status (header.status == status_success || header.status == status_notify_enum_dir)
      header.status change_notify_kind
  fixed_response change_notify_kind bytes
  output_offset ← read_u16_le bytes 66
  output_length ← read_u32_le bytes 68
  reject_if (out_of_bounds output_offset output_length bytes) io_error
      "SMB2 CHANGE_NOTIFY response output buffer is out of bounds."
  let end = output_offset + output_length
  entries ← chained (notify_entry bytes end) output_length output_offset end
  success
      (record { status = header.status; output_buffer_offset = output_offset; entries = entries })
