-- ===== src/Client/Operators/Stat.antt =====
-- src/native_smb/RemoteStatReader.cpp: the two information classes of an object.
use smb_browser.Base.{Bool, bit_and, not, ◌==◌, ◌||◌, List, ℕ, ◌+◌}
use smb_browser.Client.{
  Client, Ending, call, decoded, exchange_payload, finish, returned, unless_cancelled,
}
use smb_browser.Client.Exchangers.{close, query_info}
use smb_browser.Client.Operators.Access.{
  close_options, create_options, file_attribute_normal, file_attribute_reparse_point, file_open,
  file_read_attributes, info_type_file, query_options,
}
use smb_browser.Protocol.File.{
  CreateRequestOptions, CreateResponse, build_create_request, decode_create_response,
}
use smb_browser.Protocol.Info.{
  FileBasicInformation, FileStandardInformation, decode_file_basic_information,
  decode_file_standard_information,
}
use smb_browser.Wire.{FileId, success}

pub record RemoteStatResult : Type 0 where
  pub file_id : FileId
  pub creation_time : ℕ
  pub last_access_time : ℕ
  pub last_write_time : ℕ
  pub change_time : ℕ
  pub allocation_size : ℕ
  pub end_of_file : ℕ
  pub file_attributes : ℕ
  pub number_of_links : ℕ
  pub messages_used : ℕ
  pub delete_pending : Bool
  pub directory : Bool
  pub reparse_point : Bool

-- statCreateOptions
unfoldable pub stat_options : List ℕ → CreateRequestOptions
stat_options path = create_options path file_read_attributes file_attribute_normal file_open 0

-- The result of `stat`.
unfoldable pub stat_result :
    CreateResponse → FileBasicInformation → FileStandardInformation → RemoteStatResult
stat_result created basic standard = record {
  file_id = created.file_id;
  creation_time = basic.creation_time;
  last_access_time = basic.last_access_time;
  last_write_time = basic.last_write_time;
  change_time = basic.change_time;
  allocation_size = standard.allocation_size;
  end_of_file = standard.end_of_file;
  file_attributes = basic.file_attributes;
  number_of_links = standard.number_of_links;
  messages_used = 4;
  delete_pending = standard.delete_pending;
  directory = standard.directory;
  reparse_point =
      not (bit_and basic.file_attributes file_attribute_reparse_point == 0)
      || created.is_reparse_point;
}

-- The second half of `stat`, behind the decoded FILE_BASIC_INFORMATION.
unfoldable pub stat_standard :
    CreateResponse → FileBasicInformation → ℕ → ℕ → ℕ → Client (Ending RemoteStatResult)
stat_standard created basic message_id tree_id session_id =
    call 3
      (query_info (query_options created.file_id info_type_file 5 24 0) (message_id + 2) tree_id
        session_id)
      λ standard_response. unless_cancelled "SMB stat was cancelled." (
        decoded 3 (decode_file_standard_information standard_response.buffer) λ standard.
          call 4 (close (close_options created.file_id) (message_id + 3) tree_id session_id)
            λ closed. finish (returned (success (stat_result created basic standard))))

-- RemoteStatReader::stat
unfoldable pub stat : List ℕ → ℕ → ℕ → ℕ → Client (Ending RemoteStatResult)
stat path message_id tree_id session_id = unless_cancelled "SMB stat was cancelled." (
    call 1
      (exchange_payload (build_create_request (stat_options path) message_id tree_id session_id))
      λ payload. unless_cancelled "SMB stat was cancelled." (
        decoded 1 (decode_create_response payload) λ created.
          call 2
            (query_info (query_options created.file_id info_type_file 4 40 0) (message_id + 1)
              tree_id session_id)
            λ basic_response. unless_cancelled "SMB stat was cancelled." (
              decoded 2 (decode_file_basic_information basic_response.buffer)
                λ basic. stat_standard created basic message_id tree_id session_id)))
