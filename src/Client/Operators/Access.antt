-- ===== src/Client/Operators/Access.antt =====
-- The options of the CREATE, CLOSE, QUERY_INFO and SET_INFO requests that the operators of
-- src/native_smb send, with the constants of Protocol.h.
use smb_browser.Base.{List, ℕ, []}
use smb_browser.Protocol.File.{CloseRequestOptions, CreateRequestOptions}
use smb_browser.Protocol.Info.{QueryInfoRequestOptions, SetInfoRequestOptions}
use smb_browser.Wire.{FileId}

abbrev pub file_read_data : ℕ
file_read_data = 0x1

abbrev pub file_list_directory : ℕ
file_list_directory = 0x1

abbrev pub file_write_data : ℕ
file_write_data = 0x2

abbrev pub file_read_ea : ℕ
file_read_ea = 0x8

abbrev pub file_write_ea : ℕ
file_write_ea = 0x10

abbrev pub file_read_attributes : ℕ
file_read_attributes = 0x80

abbrev pub file_write_attributes : ℕ
file_write_attributes = 0x100

abbrev pub delete_access : ℕ
delete_access = 0x10000

abbrev pub read_control_access : ℕ
read_control_access = 0x20000

abbrev pub write_dac_access : ℕ
write_dac_access = 0x40000

abbrev pub write_owner_access : ℕ
write_owner_access = 0x80000

abbrev pub access_system_security : ℕ
access_system_security = 0x1000000

abbrev pub file_attribute_directory : ℕ
file_attribute_directory = 0x10

abbrev pub file_attribute_normal : ℕ
file_attribute_normal = 0x80

abbrev pub file_attribute_reparse_point : ℕ
file_attribute_reparse_point = 0x400

-- kFileShareRead | kFileShareWrite | kFileShareDelete
abbrev pub share_all : ℕ
share_all = 0x7

abbrev pub file_open : ℕ
file_open = 0x1

abbrev pub file_create : ℕ
file_create = 0x2

abbrev pub file_open_if : ℕ
file_open_if = 0x3

abbrev pub file_overwrite_if : ℕ
file_overwrite_if = 0x5

abbrev pub file_directory_file : ℕ
file_directory_file = 0x1

abbrev pub file_non_directory_file : ℕ
file_non_directory_file = 0x40

abbrev pub file_open_reparse_point : ℕ
file_open_reparse_point = 0x200000

abbrev pub info_type_file : ℕ
info_type_file = 0x1

abbrev pub info_type_security : ℕ
info_type_security = 0x3

-- A CREATE request with the defaults of CreateRequestOptions and every kind of sharing. The bits of
-- an access mask are distinct, so `|` is `+`.
unfoldable pub create_options : List ℕ → ℕ → ℕ → ℕ → ℕ → CreateRequestOptions
create_options path access attributes disposition options = record {
  path = path;
  requested_oplock_level = 0;
  impersonation_level = 2;
  desired_access = access;
  file_attributes = attributes;
  share_access = share_all;
  create_disposition = disposition;
  create_options = options;
  create_contexts = [];
}

unfoldable pub close_options : FileId → CloseRequestOptions
close_options f = record { file_id = f; flags = 0 }

-- queryOptions of RemoteMetadataOperator.cpp and, with no additional information, of
-- RemoteStatReader.cpp.
unfoldable pub query_options : FileId → ℕ → ℕ → ℕ → ℕ → QueryInfoRequestOptions
query_options f info_type file_info_class output_buffer_length additional = record {
  file_id = f;
  info_type = info_type;
  file_info_class = file_info_class;
  output_buffer_length = output_buffer_length;
  input_buffer = [];
  additional_information = additional;
  flags = 0;
}

-- setOptions of RemoteMetadataOperator.cpp.
unfoldable pub set_options : FileId → ℕ → ℕ → List ℕ → ℕ → SetInfoRequestOptions
set_options f info_type file_info_class buffer additional = record {
  file_id = f;
  info_type = info_type;
  file_info_class = file_info_class;
  buffer = buffer;
  additional_information = additional;
}
