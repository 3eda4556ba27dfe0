-- ===== src/Protocol/Info.antt =====
-- SET_INFO and QUERY_INFO of Protocol.cpp, and the information classes of fixed size.
pub mod Safety
pub mod Classes
use smb_browser.Base.{
  Bool, List, [], if◌then◌else◌, is_empty, length, ltb, not, replicate, ℕ, ◌++◌, ◌+◌, ◌-◌, ◌==◌,
  ◌∷◌,
}
use smb_browser.Protocol.Buffers.{announced}
use smb_browser.Protocol.Header.{
  ResponseKind, encode_smb2_sync_header, request, smb2_header_size, success_response,
}
use smb_browser.Protocol.Tree.{StatusResponse}
use smb_browser.Protocol.Utf16.{encode_utf16_le}
use smb_browser.Wire.{
  Built, DecodeResult, FileId, built, byte_at, file_id_le, io_error, read_u16_le, read_u32_le,
  read_u64_le, reject_if, success, throw_if, u16_le, u32_le, u64_le, u8, with_built, ◌>>=◌, ◌>>◌,
}
use smb_browser.Protocol.Command

pub record SetInfoRequestOptions : Type 0 where
  pub file_id : FileId
  pub info_type : ℕ
  pub file_info_class : ℕ
  pub buffer : List ℕ
  pub additional_information : ℕ

pub record QueryInfoRequestOptions : Type 0 where
  pub file_id : FileId
  pub info_type : ℕ
  pub file_info_class : ℕ
  pub output_buffer_length : ℕ
  pub input_buffer : List ℕ
  pub additional_information : ℕ
  pub flags : ℕ

pub record QueryInfoResponse : Type 0 where
  pub status : ℕ
  pub output_buffer_offset : ℕ
  pub buffer : List ℕ

pub record FileBasicInformation : Type 0 where
  pub creation_time : ℕ
  pub last_access_time : ℕ
  pub last_write_time : ℕ
  pub change_time : ℕ
  pub file_attributes : ℕ

pub record FileStandardInformation : Type 0 where
  pub allocation_size : ℕ
  pub end_of_file : ℕ
  pub number_of_links : ℕ
  pub delete_pending : Bool
  pub directory : Bool

unfoldable pub build_set_info_request : SetInfoRequestOptions → ℕ → ℕ → ℕ → Built
build_set_info_request options message_id tree_id session_id =
    throw_if (ltb 0xffffffff (length options.buffer)) "SMB2 SET_INFO buffer is too large." (
      built (
        encode_smb2_sync_header (request Command.set_info message_id tree_id session_id)
        ++ (u16_le 33
            ++ u8 options.info_type
            ++ u8 options.file_info_class
            ++ u32_le (length options.buffer)
            ++ u16_le (if is_empty options.buffer then 0 else smb2_header_size + 32)
            ++ u16_le 0
            ++ u32_le options.additional_information
            ++ file_id_le options.file_id
            ++ options.buffer)))

abbrev pub set_info_kind : ResponseKind
set_info_kind = record {
  command = Command.set_info;
  article = "a";
  name = "SET_INFO";
  fixed_size = 2;
  structure_size = 2;
}

unfoldable pub decode_set_info_response : List ℕ → DecodeResult StatusResponse
decode_set_info_response bytes = do
  header ← success_response set_info_kind bytes
  success (record { status = header.status })

unfoldable pub build_query_info_request : QueryInfoRequestOptions → ℕ → ℕ → ℕ → Built
build_query_info_request options message_id tree_id session_id =
    throw_if (ltb 0xffffffff (length options.input_buffer))
      "SMB2 QUERY_INFO input buffer is too large."
      (built (
        encode_smb2_sync_header (request Command.query_info message_id tree_id session_id)
        ++ (u16_le 41
            ++ u8 options.info_type
            ++ u8 options.file_info_class
            ++ u32_le options.output_buffer_length
            ++ u16_le (if is_empty options.input_buffer then 0 else smb2_header_size + 40)
            ++ u16_le 0
            ++ u32_le (length options.input_buffer)
            ++ u32_le options.additional_information
            ++ u32_le options.flags
            ++ file_id_le options.file_id
            ++ options.input_buffer)))

abbrev pub query_info_kind : ResponseKind
query_info_kind = record {
  command = Command.query_info;
  article = "a";
  name = "QUERY_INFO";
  fixed_size = 8;
  structure_size = 9;
}

unfoldable pub decode_query_info_response : List ℕ → DecodeResult QueryInfoResponse
decode_query_info_response bytes = do
  header ← success_response query_info_kind bytes
  output_offset ← read_u16_le bytes 66
  output_length ← read_u32_le bytes 68
  buffer ←
      announced output_offset output_length
        "SMB2 QUERY_INFO response output buffer is out of bounds." bytes
  success (record { status = header.status; output_buffer_offset = output_offset; buffer = buffer })

unfoldable pub build_file_basic_information : FileBasicInformation → List ℕ
unfolding u64_le u32_le
build_file_basic_information info =
    u64_le info.creation_time
    ++ u64_le info.last_access_time
    ++ u64_le info.last_write_time
    ++ u64_le info.change_time
    ++ u32_le info.file_attributes
    ++ u32_le 0

unfoldable pub decode_file_basic_information : List ℕ → DecodeResult FileBasicInformation
decode_file_basic_information bytes = do
  reject_if (ltb (length bytes) 40) io_error
      "FILE_BASIC_INFORMATION buffer is shorter than 40 bytes."
  creation_time ← read_u64_le bytes 0
  last_access_time ← read_u64_le bytes 8
  last_write_time ← read_u64_le bytes 16
  change_time ← read_u64_le bytes 24
  file_attributes ← read_u32_le bytes 32
  success (record {
    creation_time = creation_time;
    last_access_time = last_access_time;
    last_write_time = last_write_time;
    change_time = change_time;
    file_attributes = file_attributes;
  })

unfoldable pub decode_file_standard_information : List ℕ → DecodeResult FileStandardInformation
decode_file_standard_information bytes = do
  reject_if (ltb (length bytes) 24) io_error
      "FILE_STANDARD_INFORMATION buffer is shorter than 24 bytes."
  allocation_size ← read_u64_le bytes 0
  end_of_file ← read_u64_le bytes 8
  number_of_links ← read_u32_le bytes 16
  delete_pending ← byte_at bytes 20
  directory ← byte_at bytes 21
  success (record {
    allocation_size = allocation_size;
    end_of_file = end_of_file;
    number_of_links = number_of_links;
    delete_pending = not (delete_pending == 0);
    directory = not (directory == 0);
  })

unfoldable pub build_file_disposition_information : Bool → List ℕ
build_file_disposition_information delete_pending = (if delete_pending then 1 else 0) ∷ []

-- The buffer of a rename or a link: filled with zeros up to 24 bytes.
target_information : List ℕ → Bool → List ℕ
target_information name replace_if_exists =
    let bytes =
      (if replace_if_exists then 1 else 0) ∷ replicate 7 0
      ++ (u64_le 0 ++ u32_le (length name) ++ name) in
    bytes ++ replicate (24 - length bytes) 0

unfoldable pub build_file_rename_information : List ℕ → Bool → Built
unfolding target_information
build_file_rename_information new_path replace_if_exists =
    with_built (encode_utf16_le new_path) λ name.
      throw_if (is_empty name) "SMB2 rename target path is empty." (
        throw_if (ltb 0xffffffff (length name)) "SMB2 rename target path is too large."
          (built (target_information name replace_if_exists)))

unfoldable pub build_file_link_information : List ℕ → Bool → Built
unfolding target_information
build_file_link_information new_path replace_if_exists =
    with_built (encode_utf16_le new_path) λ name.
      throw_if (is_empty name) "SMB2 hardlink target path is empty." (
        throw_if (ltb 0xffffffff (length name)) "SMB2 hardlink target path is too large."
          (built (target_information name replace_if_exists)))
