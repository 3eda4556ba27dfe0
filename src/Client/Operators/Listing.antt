-- ===== src/Client/Operators/Listing.antt =====
-- src/native_smb/DirectoryLister.cpp: a directory is opened, read page by page and closed.
use smb_browser.Base.{
  Bool, false, if◌then◌else◌, is_empty, suc, true, zero, ◌++◌, ◌==◌, List, ℕ, [], ◌+◌, ◌∷◌,
}
use smb_browser.Client.{
  Client, Ending, call, decoded, exchange_payload, finish, returned, unfinished, unless_cancelled,
}
use smb_browser.Client.Exchangers.{close}
use smb_browser.Client.Operators.{naming}
use smb_browser.Client.Operators.Access.{
  close_options, create_options, file_attribute_normal, file_directory_file, file_list_directory,
  file_open, file_read_attributes, file_read_ea,
}
use smb_browser.Protocol.Directory.{
  DirectoryEntry, QueryDirectoryRequestOptions, build_query_directory_request,
  decode_query_directory_response,
}
use smb_browser.Protocol.File.{CreateRequestOptions, build_create_request, decode_create_response}
use smb_browser.Protocol.Status.{status_no_more_files}
use smb_browser.Wire.{FileId, success}

pub record DirectoryListResult : Type 0 where
  pub directory_file_id : FileId
  pub entries : List DirectoryEntry
  pub messages_used : ℕ

-- directoryCreateOptions
unfoldable pub lister_options : List ℕ → CreateRequestOptions
lister_options path =
    create_options path (file_list_directory + file_read_ea + file_read_attributes)
      file_attribute_normal file_open file_directory_file

-- QueryDirectoryRequestOptions with its defaults: the pattern is "*".
unfoldable pub list_query : FileId → Bool → QueryDirectoryRequestOptions
list_query f first_query = record {
  file_id = f;
  pattern = 0x2a ∷ [];
  information_class = 0x25;
  flags = if first_query then 1 else 0;
  file_index = 0;
  output_buffer_length = 65536;
}

module _ (message_id tree_id session_id : ℕ) (f : FileId) where
  -- The end of `list`, behind the loop.
  unfoldable pub close_listing : List DirectoryEntry → ℕ → Client (Ending DirectoryListResult)
  close_listing entries messages_used =
      call 0 (close (close_options f) (message_id + messages_used) tree_id session_id) λ closed.
        finish (
          returned (
            success (record {
              directory_file_id = f;
              entries = entries;
              messages_used = messages_used + 1;
            })))

  -- The loop of `list`, with `messages_used` counted before it is used: as many rounds as the first
  -- argument says.
  unfoldable pub list_pages :
      ℕ → Bool → List DirectoryEntry → ℕ → Client (Ending DirectoryListResult)
  list_pages zero first_query entries messages_used = finish unfinished
  list_pages (suc rounds) first_query entries messages_used =
      call 0
        (exchange_payload (
          build_query_directory_request (list_query f first_query) (message_id + messages_used)
            tree_id session_id))
        λ payload. unless_cancelled "SMB directory listing was cancelled." (
          decoded 0 (decode_query_directory_response payload) λ response.
            let rest = list_pages rounds false (entries ++ response.entries) (messages_used + 1) in
            if response.status == status_no_more_files
            then close_listing entries (messages_used + 1)
            else if is_empty response.entries
            then close_listing (entries ++ response.entries) (messages_used + 1)
            else rest)

-- DirectoryLister::list
unfoldable pub list : ℕ → List ℕ → ℕ → ℕ → ℕ → Client (Ending DirectoryListResult)
list rounds path message_id tree_id session_id =
    unless_cancelled "SMB directory listing was cancelled." (
      call 0
        (exchange_payload
          (build_create_request (lister_options path) message_id tree_id session_id))
        λ payload. unless_cancelled "SMB directory listing was cancelled." (
          decoded 0 (naming message_id (decode_create_response payload))
            λ created. list_pages message_id tree_id session_id created.file_id rounds true [] 1))
