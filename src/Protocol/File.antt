-- ===== src/Protocol/File.antt =====
-- CREATE and CLOSE of Protocol.cpp.
pub mod Safety
use smb_browser.Base.{
  Bool, List, [], bit_and, if◌then◌else◌, is_empty, length, ltb, not, ℕ, ◌&&◌, ◌++◌, ◌+◌, ◌==◌,
  ◌||◌,
}
use smb_browser.Protocol.Header.{
  ResponseKind, encode_smb2_sync_header, request, smb2_header_size, success_response,
}
use smb_browser.Protocol.Utf16.{encode_utf16_le}
use smb_browser.Wire.{
  Built, DecodeResult, FileId, built, byte_at, file_id_le, read_file_id, read_u16_le, read_u32_le,
  read_u64_le, success, throw_if, u16_le, u32_le, u64_le, u8, with_built, ◌>>=◌, ◌>>◌,
}
use smb_browser.Protocol.Command

pub record CreateRequestOptions : Type 0 where
  pub path : List ℕ
  pub requested_oplock_level : ℕ
  pub impersonation_level : ℕ
  pub desired_access : ℕ
  pub file_attributes : ℕ
  pub share_access : ℕ
  pub create_disposition : ℕ
  pub create_options : ℕ
  pub create_contexts : List ℕ

pub record CreateResponse : Type 0 where
  pub oplock_level : ℕ
  pub flags : ℕ
  pub create_action : ℕ
  pub creation_time : ℕ
  pub last_access_time : ℕ
  pub last_write_time : ℕ
  pub change_time : ℕ
  pub allocation_size : ℕ
  pub end_of_file : ℕ
  pub file_attributes : ℕ
  pub file_id : FileId
  pub is_reparse_point : Bool

pub record CloseRequestOptions : Type 0 where
  pub file_id : FileId
  pub flags : ℕ

pub record CloseResponse : Type 0 where
  pub status : ℕ
  pub flags : ℕ
  pub creation_time : ℕ
  pub last_access_time : ℕ
  pub last_write_time : ℕ
  pub change_time : ℕ
  pub allocation_size : ℕ
  pub end_of_file : ℕ
  pub file_attributes : ℕ
  pub has_post_query_attributes : Bool

-- The name stands at offset 120; an empty body gets one byte.
unfoldable pub build_create_request : CreateRequestOptions → ℕ → ℕ → ℕ → Built
build_create_request options message_id tree_id session_id =
    with_built (encode_utf16_le options.path) λ name.
      throw_if (ltb 0xffff (length name)) "SMB2 CREATE name is too large." (
        throw_if (ltb 0xffffffff (length options.create_contexts))
          "SMB2 CREATE contexts are too large."
          (built (
            encode_smb2_sync_header (request Command.create message_id tree_id session_id)
            ++ (u16_le 57
                ++ u8 0
                ++ u8 options.requested_oplock_level
                ++ u32_le options.impersonation_level
                ++ u64_le 0
                ++ u64_le 0
                ++ u32_le options.desired_access
                ++ u32_le options.file_attributes
                ++ u32_le options.share_access
                ++ u32_le options.create_disposition
                ++ u32_le options.create_options
                ++ u16_le (smb2_header_size + 56)
                ++ u16_le (length name)
                ++ u32_le (
                    if is_empty options.create_contexts
                    then 0
                    else smb2_header_size + 56 + length name)
                ++ u32_le (length options.create_contexts)
                ++ name
                ++ options.create_contexts
                ++ (if is_empty name && is_empty options.create_contexts then u8 0 else [])))))

abbrev pub create_kind : ResponseKind
create_kind = record {
  command = Command.create;
  article = "a";
  name = "CREATE";
  fixed_size = 88;
  structure_size = 89;
}

unfoldable pub decode_create_response : List ℕ → DecodeResult CreateResponse
decode_create_response bytes = do
  header ← success_response create_kind bytes
  oplock_level ← byte_at bytes 66
  flags ← byte_at bytes 67
  create_action ← read_u32_le bytes 68
  creation_time ← read_u64_le bytes 72
  last_access_time ← read_u64_le bytes 80
  last_write_time ← read_u64_le bytes 88
  change_time ← read_u64_le bytes 96
  allocation_size ← read_u64_le bytes 104
  end_of_file ← read_u64_le bytes 112
  file_attributes ← read_u32_le bytes 120
  file_id ← read_file_id bytes 128
  success (record {
    oplock_level = oplock_level;
    flags = flags;
    create_action = create_action;
    creation_time = creation_time;
    last_access_time = last_access_time;
    last_write_time = last_write_time;
    change_time = change_time;
    allocation_size = allocation_size;
    end_of_file = end_of_file;
    file_attributes = file_attributes;
    file_id = file_id;
    is_reparse_point = not (bit_and flags 1 == 0) || not (bit_and file_attributes 0x400 == 0);
  })

unfoldable pub build_close_request : CloseRequestOptions → ℕ → ℕ → ℕ → Built
build_close_request options message_id tree_id session_id = built (
    encode_smb2_sync_header (request Command.close message_id tree_id session_id)
    ++ (u16_le 24 ++ u16_le options.flags ++ u32_le 0 ++ file_id_le options.file_id))

abbrev pub close_kind : ResponseKind
close_kind = record {
  command = Command.close;
  article = "a";
  name = "CLOSE";
  fixed_size = 60;
  structure_size = 60;
}

unfoldable pub decode_close_response : List ℕ → DecodeResult CloseResponse
decode_close_response bytes = do
  header ← success_response close_kind bytes
  flags ← read_u16_le bytes 66
  creation_time ← read_u64_le bytes 72
  last_access_time ← read_u64_le bytes 80
  last_write_time ← read_u64_le bytes 88
  change_time ← read_u64_le bytes 96
  allocation_size ← read_u64_le bytes 104
  end_of_file ← read_u64_le bytes 112
  file_attributes ← read_u32_le bytes 120
  success (record {
    status = header.status;
    flags = flags;
    creation_time = creation_time;
    last_access_time = last_access_time;
    last_write_time = last_write_time;
    change_time = change_time;
    allocation_size = allocation_size;
    end_of_file = end_of_file;
    file_attributes = file_attributes;
    has_post_query_attributes = not (bit_and flags 1 == 0);
  })
