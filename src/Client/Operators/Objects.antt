-- ===== src/Client/Operators/Objects.antt =====
-- src/native_smb/RemoteObjectOperator.cpp: directories are made, objects deleted and renamed, links
-- made; each opens an object, changes it and closes it.
use smb_browser.Base.{Bool, String, false, if◌then◌else◌, true, List, ℕ, ◌+◌}
use smb_browser.Client.{
  Client, Ending, call, exchange_decoded, finish, returned, unless_cancelled, with_bytes,
}
use smb_browser.Client.Exchangers.{close, set_info}
use smb_browser.Client.Operators.Access.{
  close_options, create_options, delete_access, file_attribute_directory, file_attribute_normal,
  file_attribute_reparse_point, file_create, file_directory_file, file_non_directory_file,
  file_open, file_open_reparse_point, file_read_attributes, file_write_attributes, info_type_file,
  set_options,
}
use smb_browser.Protocol.File.{
  CreateRequestOptions, CreateResponse, build_create_request, decode_create_response,
}
use smb_browser.Protocol.Info.{
  build_file_disposition_information, build_file_link_information, build_file_rename_information,
}
use smb_browser.Protocol.Ioctl.{
  IoctlRequestOptions, IoctlResponse, build_ioctl_request, build_symbolic_link_reparse_buffer,
  decode_ioctl_response,
}
use smb_browser.Wire.{Built, FileId, built, success}

pub record RemoteObjectResult : Type 0 where
  pub file_id : FileId

-- directoryCreateOptions
unfoldable pub new_directory_options : List ℕ → CreateRequestOptions
new_directory_options path =
    create_options path file_read_attributes file_attribute_directory file_create
      file_directory_file

-- openForMutationOptions
unfoldable pub mutation_options : List ℕ → Bool → CreateRequestOptions
mutation_options path directory =
    create_options path (delete_access + file_read_attributes + file_write_attributes)
      file_attribute_normal file_open (if directory then file_directory_file else 0)

-- symlinkCreateOptions
unfoldable pub symlink_options : List ℕ → Bool → CreateRequestOptions
symlink_options path directory =
    create_options path (file_write_attributes + file_read_attributes)
      (file_attribute_reparse_point + (if directory then file_attribute_directory else 0))
      file_create
      (file_open_reparse_point
        + (if directory then file_directory_file else file_non_directory_file))

module _ (message_id tree_id session_id : ℕ) where
  unfoldable pub open_object : CreateRequestOptions → Client (Ending CreateResponse)
  open_object options =
      exchange_decoded 0 (build_create_request options message_id tree_id session_id)
        decode_create_response

  unfoldable pub close_and_return : FileId → Client (Ending RemoteObjectResult)
  close_and_return f =
      call 0 (close (close_options f) message_id tree_id session_id)
        λ closed. finish (returned (success (record { file_id = f })))

  -- The function `ioctl` of the file.
  unfoldable pub ioctl : IoctlRequestOptions → Client (Ending IoctlResponse)
  ioctl options =
      exchange_decoded 0 (build_ioctl_request options message_id tree_id session_id)
        decode_ioctl_response

unfoldable pub symlink_ioctl : FileId → List ℕ → IoctlRequestOptions
symlink_ioctl f input = record {
  ctl_code = 0x000900a4;
  file_id = f;
  input = input;
  max_input_response = 0;
  max_output_response = 0;
  flags = 1;
}

module _ (message_id tree_id session_id : ℕ) where
  unfoldable pub create_directory : List ℕ → Client (Ending RemoteObjectResult)
  create_directory path = unless_cancelled "SMB create directory was cancelled." (
      call 0 (open_object message_id tree_id session_id (new_directory_options path)) λ created.
        unless_cancelled "SMB create directory was cancelled."
          (close_and_return (message_id + 1) tree_id session_id created.file_id))

  -- The body that deleteObject, renameObject and createHardLink share: open, SET_INFO, CLOSE. The
  -- buffer is built when the object is open.
  unfoldable pub mutate : String → List ℕ → Bool → ℕ → Built → Client (Ending RemoteObjectResult)
  mutate message path directory file_info_class buffer = unless_cancelled message (
      call 0 (open_object message_id tree_id session_id (mutation_options path directory))
        λ created. unless_cancelled message (
          with_bytes buffer λ bytes.
            call 0
              (set_info (set_options created.file_id info_type_file file_info_class bytes 0)
                (message_id + 1) tree_id session_id)
              λ changed. close_and_return (message_id + 2) tree_id session_id created.file_id))

  unfoldable pub delete_object : List ℕ → Bool → Client (Ending RemoteObjectResult)
  delete_object path directory =
      mutate "SMB delete was cancelled." path directory 0xd
        (built (build_file_disposition_information true))

  unfoldable pub rename_object : List ℕ → List ℕ → Bool → Client (Ending RemoteObjectResult)
  rename_object from_path to_path replace_if_exists =
      mutate "SMB rename was cancelled." from_path false 0xa
        (build_file_rename_information to_path replace_if_exists)

  unfoldable pub create_hard_link : List ℕ → List ℕ → Bool → Client (Ending RemoteObjectResult)
  create_hard_link existing_path link_path replace_if_exists =
      mutate "SMB hardlink creation was cancelled." existing_path false 0xb
        (build_file_link_information link_path replace_if_exists)

  unfoldable pub create_symbolic_link :
      List ℕ → List ℕ → Bool → Bool → Client (Ending RemoteObjectResult)
  create_symbolic_link link_path target_path directory relative =
      unless_cancelled "SMB symlink creation was cancelled." (
        call 0 (open_object message_id tree_id session_id (symlink_options link_path directory))
          λ created. unless_cancelled "SMB symlink creation was cancelled." (
            with_bytes (build_symbolic_link_reparse_buffer target_path target_path relative)
              λ buffer.
                call 0
                  (ioctl (message_id + 1) tree_id session_id (symlink_ioctl created.file_id buffer))
                  λ linked. close_and_return (message_id + 2) tree_id session_id created.file_id))
