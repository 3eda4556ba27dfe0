-- ===== src/Session/Files.antt =====
-- The files and directories of src/native_smb/NativeSmbSession.cpp: listDirectory, readFileOnce,
-- openFileForRead, readFileChunk, closeFileHandle, writeFileOnce, statObject, watchDirectoryOnce.
use smb_browser.Base.{
  Bool, List, [], false, if◌then◌else◌, true, ◌&&◌, ◌-◌, ◌/◌, ◌==◌, ◌||◌, ◌∷◌, ℕ, ◌+◌,
}
use smb_browser.Client.{Client, Ending, exchange_decoded}
use smb_browser.Client.Exchangers.{close, read}
use smb_browser.Client.Operators.Access.{close_options}
use smb_browser.Client.Operators.Listing.{list}
use smb_browser.Client.Operators.Stat.{RemoteStatResult, stat}
use smb_browser.Client.Operators.Transfers.{
  read_once, read_options, reader_options, wait_once, write_once,
}
use smb_browser.Protocol.Directory.{DirectoryEntry}
use smb_browser.Protocol.File.{
  CreateRequestOptions, CreateResponse, build_create_request, decode_create_response,
}
use smb_browser.Protocol.Notify.{ChangeNotifyEntry}
use smb_browser.Protocol.Status.{status_notify_enum_dir}
use smb_browser.Session.{Reply, Session, allocated, counted_by}
use smb_browser.Wire.{FileId}

pub record NativeRemoteEntry : Type 0 where
  pub name : List ℕ
  pub size : ℕ
  pub allocation_size : ℕ
  pub creation_time : ℕ
  pub last_access_time : ℕ
  pub last_write_time : ℕ
  pub change_time : ℕ
  pub attributes : ℕ
  pub directory : Bool
  pub reparse_point : Bool

pub record NativeReadResult : Type 0 where
  pub payload : List ℕ
  pub data_remaining : ℕ

pub record NativeFileHandle : Type 0 where
  pub file_id : FileId
  pub size : ℕ

pub record NativeWriteResult : Type 0 where
  pub bytes_written : ℕ
  pub remaining : ℕ

pub record NativeStatResult : Type 0 where
  pub size : ℕ
  pub allocation_size : ℕ
  pub creation_time : ℕ
  pub last_access_time : ℕ
  pub last_write_time : ℕ
  pub change_time : ℕ
  pub attributes : ℕ
  pub number_of_links : ℕ
  pub directory : Bool
  pub reparse_point : Bool
  pub delete_pending : Bool

pub record NativeNotifyResult : Type 0 where
  pub entries : List ChangeNotifyEntry
  pub enumeration_required : Bool

same : List ℕ → List ℕ → Bool
same [] [] = true
same [] (y ∷ ys) = false
same (x ∷ xs) [] = false
same (x ∷ xs) (y ∷ ys) = (x == y) && same xs ys

-- "." and ".."
unfoldable pub is_dot_entry : List ℕ → Bool
unfolding same
is_dot_entry name = same name (0x2e ∷ []) || same name (0x2e ∷ 0x2e ∷ [])

unfoldable pub to_native_entry : DirectoryEntry → NativeRemoteEntry
to_native_entry entry = record {
  name = entry.name;
  size = entry.end_of_file;
  allocation_size = entry.allocation_size;
  creation_time = entry.creation_time;
  last_access_time = entry.last_access_time;
  last_write_time = entry.last_write_time;
  change_time = entry.change_time;
  attributes = entry.file_attributes;
  directory = entry.is_directory;
  reparse_point = entry.is_reparse_point;
}

-- The loop of listDirectory over the entries.
unfoldable pub native_entries : List DirectoryEntry → List NativeRemoteEntry
native_entries [] = []
native_entries (entry ∷ entries) =
    if is_dot_entry entry.name
    then native_entries entries
    else to_native_entry entry ∷ native_entries entries

-- The rounds are those that the model gives to the loop of the lister.
unfoldable pub list_directory : ℕ → Session → List ℕ → Client (Reply (List NativeRemoteEntry))
list_directory rounds s path =
    counted_by s (λ r. r.messages_used) (λ e. 3) (λ r. native_entries r.entries)
      (list rounds path s.next_message_id s.tree_id s.session_id)

unfoldable pub read_file_once : Session → List ℕ → ℕ → ℕ → Client (Reply NativeReadResult)
read_file_once s path size offset =
    allocated s 3 (λ r. record { payload = r.payload; data_remaining = r.data_remaining })
      (read_once path size offset)

-- openFile
unfoldable pub open_file : CreateRequestOptions → ℕ → ℕ → ℕ → Client (Ending CreateResponse)
open_file options message_id tree_id session_id =
    exchange_decoded 0 (build_create_request options message_id tree_id session_id)
      decode_create_response

-- readFileOptions is fileCreateOptions of FileReader.cpp.
unfoldable pub open_file_for_read : Session → List ℕ → Client (Reply NativeFileHandle)
open_file_for_read s path =
    allocated s 1 (λ created. record { file_id = created.file_id; size = created.end_of_file })
      (open_file (reader_options path))

-- creditChargeForPayload
unfoldable pub credit_charge_for_payload : ℕ → ℕ
credit_charge_for_payload size = if size == 0 then 1 else 1 + (size - 1) / 65536

unfoldable pub read_file_chunk : Session → FileId → ℕ → ℕ → Client (Reply NativeReadResult)
read_file_chunk s f size offset =
    allocated s (credit_charge_for_payload size)
      (λ r. record { payload = r.payload; data_remaining = r.data_remaining })
      (read (read_options f size offset))

-- closeFile, whose value is `true`.
unfoldable pub close_file_handle : Session → FileId → Client (Reply Bool)
close_file_handle s f = allocated s 1 (λ closed. true) (close (close_options f))

unfoldable pub write_file_once : Session → List ℕ → List ℕ → ℕ → Client (Reply NativeWriteResult)
write_file_once s path payload offset =
    counted_by s (λ r. r.messages_used) (λ e. 3)
      (λ r. record { bytes_written = r.bytes_written; remaining = r.remaining })
      (write_once path payload offset s.next_message_id s.tree_id s.session_id)

unfoldable pub native_stat : RemoteStatResult → NativeStatResult
native_stat r = record {
  size = r.end_of_file;
  allocation_size = r.allocation_size;
  creation_time = r.creation_time;
  last_access_time = r.last_access_time;
  last_write_time = r.last_write_time;
  change_time = r.change_time;
  attributes = r.file_attributes;
  number_of_links = r.number_of_links;
  directory = r.directory;
  reparse_point = r.reparse_point;
  delete_pending = r.delete_pending;
}

unfoldable pub stat_object : Session → List ℕ → Client (Reply NativeStatResult)
stat_object s path =
    counted_by s (λ r. r.messages_used) (λ e. e.messages_used) native_stat
      (stat path s.next_message_id s.tree_id s.session_id)

unfoldable pub watch_directory_once :
    Session → List ℕ → ℕ → Bool → Client (Reply NativeNotifyResult)
watch_directory_once s path completion_filter watch_tree =
    allocated s 3
      (λ r. record {
        entries = r.entries;
        enumeration_required = r.status == status_notify_enum_dir;
      })
      (wait_once path completion_filter watch_tree 65536)
