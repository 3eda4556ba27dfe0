-- ===== src/Client/Operators/Transfers.antt =====
-- src/native_smb/FileReader.cpp, FileWriter.cpp and DirectoryWatcher.cpp: a file or directory is
-- opened, used once and closed.
use smb_browser.Base.{Bool, if◌then◌else◌, List, ℕ, [], ◌+◌, ◌∷◌}
use smb_browser.Client.{
  Client, Ending, call, decoded, exchange_decoded, exchange_payload, finish, returned,
  unless_cancelled,
}
use smb_browser.Client.Exchangers.{close, read, wait, write}
use smb_browser.Client.Operators.{naming}
use smb_browser.Client.Operators.Access.{
  close_options, create_options, file_attribute_normal, file_directory_file, file_list_directory,
  file_non_directory_file, file_open, file_open_if, file_read_attributes, file_read_data,
  file_read_ea, file_write_attributes, file_write_data, file_write_ea,
}
use smb_browser.Protocol.File.{CreateRequestOptions, build_create_request, decode_create_response}
use smb_browser.Protocol.Notify.{ChangeNotifyEntry, ChangeNotifyRequestOptions}
use smb_browser.Protocol.Transfer.{ReadRequestOptions, WriteRequestOptions}
use smb_browser.Wire.{FileId, success}

pub record FileReadResult : Type 0 where
  pub file_id : FileId
  pub payload : List ℕ
  pub data_remaining : ℕ

pub record FileWriteResult : Type 0 where
  pub file_id : FileId
  pub bytes_written : ℕ
  pub remaining : ℕ
  pub messages_used : ℕ

pub record DirectoryWatchResult : Type 0 where
  pub directory_file_id : FileId
  pub status : ℕ
  pub entries : List ChangeNotifyEntry

unfoldable pub read_options : FileId → ℕ → ℕ → ReadRequestOptions
read_options f size offset = record {
  file_id = f;
  length = size;
  offset = offset;
  flags = 0;
  minimum_count = 0;
  channel = 0;
  remaining_bytes = 0;
  channel_info = [];
}

unfoldable pub write_options : FileId → List ℕ → ℕ → WriteRequestOptions
write_options f payload offset = record {
  file_id = f;
  payload = payload;
  offset = offset;
  channel = 0;
  remaining_bytes = 0;
  channel_info = [];
  flags = 0;
}

-- fileCreateOptions of FileReader.cpp.
unfoldable pub reader_options : List ℕ → CreateRequestOptions
reader_options path =
    create_options path (file_read_data + file_read_ea + file_read_attributes) file_attribute_normal
      file_open file_non_directory_file

-- fileCreateOptions of FileWriter.cpp.
unfoldable pub writer_options : List ℕ → CreateRequestOptions
writer_options path =
    create_options path
      (file_write_data + file_write_ea + file_write_attributes + file_read_attributes)
      file_attribute_normal file_open_if file_non_directory_file

-- directoryCreateOptions of DirectoryWatcher.cpp.
unfoldable pub watcher_options : List ℕ → CreateRequestOptions
watcher_options path =
    create_options path (file_list_directory + file_read_attributes) file_attribute_normal file_open
      file_directory_file

unfoldable pub notify_options : FileId → ℕ → Bool → ℕ → ChangeNotifyRequestOptions
notify_options f completion_filter watch_tree output_buffer_length = record {
  file_id = f;
  flags = if watch_tree then 1 else 0;
  output_buffer_length = output_buffer_length;
  completion_filter = completion_filter;
}

module _ (path : List ℕ) where
  -- FileReader::readOnce
  unfoldable pub read_once : ℕ → ℕ → ℕ → ℕ → ℕ → Client (Ending FileReadResult)
  read_once size offset message_id tree_id session_id =
      unless_cancelled "SMB file read was cancelled." (
        call 0
          (exchange_payload
            (build_create_request (reader_options path) message_id tree_id session_id))
          λ payload. unless_cancelled "SMB file read was cancelled." (
            decoded 0 (naming message_id (decode_create_response payload)) λ created.
              call 0
                (read (read_options created.file_id size offset) (message_id + 1) tree_id
                  session_id)
                λ response.
                  call 0 (close (close_options created.file_id) (message_id + 2) tree_id session_id)
                    λ closed. finish (
                      returned (
                        success (record {
                          file_id = created.file_id;
                          payload = response.payload;
                          data_remaining = response.data_remaining;
                        })))))

  -- What FileWriter::writeOnce does with the open file: nothing but a CLOSE for no bytes.
  unfoldable pub write_opened : FileId → List ℕ → ℕ → ℕ → ℕ → ℕ → Client (Ending FileWriteResult)
  write_opened f [] offset message_id tree_id session_id =
      call 0 (close (close_options f) (message_id + 1) tree_id session_id) λ closed. finish (
        returned
          (success (record { file_id = f; bytes_written = 0; remaining = 0; messages_used = 2 })))
  write_opened f (b ∷ payload) offset message_id tree_id session_id =
      call 0 (write (write_options f (b ∷ payload) offset) (message_id + 1) tree_id session_id)
        λ response. call 0 (close (close_options f) (message_id + 2) tree_id session_id) λ closed.
          finish (
            returned (
              success (record {
                file_id = f;
                bytes_written = response.count;
                remaining = response.remaining;
                messages_used = 3;
              })))

  -- FileWriter::writeOnce
  unfoldable pub write_once : List ℕ → ℕ → ℕ → ℕ → ℕ → Client (Ending FileWriteResult)
  write_once payload offset message_id tree_id session_id =
      unless_cancelled "SMB file write was cancelled." (
        call 0
          (exchange_payload
            (build_create_request (writer_options path) message_id tree_id session_id))
          λ answer. unless_cancelled "SMB file write was cancelled." (
            decoded 0 (decode_create_response answer)
              λ created. write_opened created.file_id payload offset message_id tree_id session_id))

  -- DirectoryWatcher::waitOnce
  unfoldable pub wait_once : ℕ → Bool → ℕ → ℕ → ℕ → ℕ → Client (Ending DirectoryWatchResult)
  wait_once completion_filter watch_tree output_buffer_length message_id tree_id session_id =
      unless_cancelled "SMB directory watch was cancelled." (
        call 0
          (exchange_decoded 0
            (build_create_request (watcher_options path) message_id tree_id session_id)
            decode_create_response)
          λ created. unless_cancelled "SMB directory watch was cancelled." (
            call 0
              (wait
                (notify_options created.file_id completion_filter watch_tree output_buffer_length)
                (message_id + 1) tree_id session_id)
              λ notified.
                call 0 (close (close_options created.file_id) (message_id + 2) tree_id session_id)
                  λ closed. finish (
                    returned (
                      success (record {
                        directory_file_id = created.file_id;
                        status = notified.status;
                        entries = notified.entries;
                      })))))
