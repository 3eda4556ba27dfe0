-- ===== src/Protocol/Directory.antt =====
-- QUERY_DIRECTORY of Protocol.cpp.
pub mod Safety
use smb_browser.Base.{
  Bool, List, [], bit_and, if◌then◌else◌, is_empty, length, ltb, not, ℕ, ◌%◌, ◌&&◌, ◌++◌, ◌+◌, ◌-◌,
  ◌==◌, ◌||◌,
}
use smb_browser.Protocol.Buffers.{out_of_bounds}
use smb_browser.Protocol.Chain.{chained}
use smb_browser.Protocol.Header.{
  Smb2SyncHeader, ResponseKind, encode_smb2_sync_header, fixed_response, request, require_status,
  response_header, smb2_header_size,
}
use smb_browser.Protocol.Status.{status_no_more_files, status_success}
use smb_browser.Protocol.Utf16.{decode_utf16_le, encode_utf16_le}
use smb_browser.Wire.{
  Built, DecodeResult, FileId, built, file_id_le, io_error, read_u16_le, read_u32_le, read_u64_le,
  reject_if, slice, success, throw_if, u16_le, u32_le, u8, with_built, ◌>>=◌, ◌>>◌,
}
use smb_browser.Protocol.Command

pub record QueryDirectoryRequestOptions : Type 0 where
  pub file_id : FileId
  pub pattern : List ℕ
  pub information_class : ℕ
  pub flags : ℕ
  pub file_index : ℕ
  pub output_buffer_length : ℕ

pub record DirectoryEntry : Type 0 where
  pub name : List ℕ
  pub file_index : ℕ
  pub creation_time : ℕ
  pub last_access_time : ℕ
  pub last_write_time : ℕ
  pub change_time : ℕ
  pub end_of_file : ℕ
  pub allocation_size : ℕ
  pub file_attributes : ℕ
  pub ea_size_or_reparse_tag : ℕ
  pub file_id : ℕ
  pub is_directory : Bool
  pub is_reparse_point : Bool

pub record QueryDirectoryResponse : Type 0 where
  pub status : ℕ
  pub entries : List DirectoryEntry

unfoldable pub build_query_directory_request : QueryDirectoryRequestOptions → ℕ → ℕ → ℕ → Built
build_query_directory_request options message_id tree_id session_id =
    with_built (encode_utf16_le options.pattern) λ name.
      throw_if (ltb 0xffff (length name)) "SMB2 QUERY_DIRECTORY pattern is too large." (
        built (
          encode_smb2_sync_header (request Command.query_directory message_id tree_id session_id)
          ++ (u16_le 33
              ++ u8 options.information_class
              ++ u8 options.flags
              ++ u32_le options.file_index
              ++ file_id_le options.file_id
              ++ u16_le (if is_empty name then 0 else smb2_header_size + 32)
              ++ u16_le (length name)
              ++ u32_le options.output_buffer_length
              ++ name)))

abbrev pub query_directory_kind : ResponseKind
query_directory_kind = record {
  command = Command.query_directory;
  article = "a";
  name = "QUERY_DIRECTORY";
  fixed_size = 8;
  structure_size = 9;
}

-- One round: the offset of the next entry, and the entry at `offset`. A uint32_t sum wraps.
unfoldable pub directory_entry : List ℕ → ℕ → ℕ → DecodeResult (ℕ × DirectoryEntry)
directory_entry bytes end offset = do
  reject_if (ltb (end - offset) 104) io_error
      "FILE_ID_BOTH_DIR_INFORMATION entry is shorter than fixed part."
  next ← read_u32_le bytes offset
  name_length ← read_u32_le bytes (offset + 60)
  reject_if
      (ltb end (offset + 104 + name_length) || ltb (offset + 104 + name_length) (offset + 104))
      io_error "FILE_ID_BOTH_DIR_INFORMATION file name is out of bounds."
  reject_if
      (not (next == 0) && (ltb next ((104 + name_length) % 4294967296) || ltb end (offset + next)))
      io_error "FILE_ID_BOTH_DIR_INFORMATION next entry offset is invalid."
  encoded ← slice bytes (offset + 104) (offset + 104 + name_length)
  name ← decode_utf16_le encoded
  file_index ← read_u32_le bytes (offset + 4)
  creation_time ← read_u64_le bytes (offset + 8)
  last_access_time ← read_u64_le bytes (offset + 16)
  last_write_time ← read_u64_le bytes (offset + 24)
  change_time ← read_u64_le bytes (offset + 32)
  end_of_file ← read_u64_le bytes (offset + 40)
  allocation_size ← read_u64_le bytes (offset + 48)
  file_attributes ← read_u32_le bytes (offset + 56)
  ea_size_or_reparse_tag ← read_u32_le bytes (offset + 64)
  file_id ← read_u64_le bytes (offset + 96)
  success (
    next,
    record {
      name = name;
      file_index = file_index;
      creation_time = creation_time;
      last_access_time = last_access_time;
      last_write_time = last_write_time;
      change_time = change_time;
      end_of_file = end_of_file;
      allocation_size = allocation_size;
      file_attributes = file_attributes;
      ea_size_or_reparse_tag = ea_size_or_reparse_tag;
      file_id = file_id;
      is_directory = not (bit_and file_attributes 0x10 == 0);
      is_reparse_point = not (bit_and file_attributes 0x400 == 0);
    },
  )

-- The part behind the test for the last page.
unfoldable pub query_directory_page : Smb2SyncHeader → List ℕ → DecodeResult QueryDirectoryResponse
query_directory_page header bytes = do
  require_status (header.status == status_success) header.status query_directory_kind
  fixed_response query_directory_kind bytes
  output_offset ← read_u16_le bytes 66
  output_length ← read_u32_le bytes 68
  reject_if (out_of_bounds output_offset output_length bytes) io_error
      "SMB2 QUERY_DIRECTORY response output buffer is out of bounds."
  let end = output_offset + output_length
  entries ← chained (directory_entry bytes end) output_length output_offset end
  success (record { status = header.status; entries = entries })

-- STATUS_NO_MORE_FILES is accepted before the fixed part is looked at.
unfoldable pub decode_query_directory_response : List ℕ → DecodeResult QueryDirectoryResponse
decode_query_directory_response bytes = response_header query_directory_kind bytes >>= λ header.
    if header.status == status_no_more_files
    then success (record { status = header.status; entries = [] })
    else query_directory_page header bytes
