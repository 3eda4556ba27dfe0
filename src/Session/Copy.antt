-- ===== src/Session/Copy.antt =====
-- copyFileServerSide of src/native_smb/NativeSmbSession.cpp: the server copies a file in chunks. The
-- file handles are closed with a context that is never cancelled.
pub mod Answers
pub mod Cleanup
pub mod Closes
pub mod Opened
use smb_browser.Base.{
  List, String, [], false, if◌then◌else◌, length, ltb, suc, zero, ◌-◌, ◌==◌, ◌||◌, ◌∷◌, ℕ, ◌+◌, ◌%◌,
  ◌^◌,
}
use smb_browser.Client.{
  Client, Ending, and_then, finish, poll, report, returned, send, thrown, unfinished,
}
use smb_browser.Client.Exchangers.{close}
use smb_browser.Client.Operators.Access.{
  close_options, create_options, file_attribute_normal, file_non_directory_file, file_open,
  file_overwrite_if, file_read_attributes, file_read_data, file_write_attributes, file_write_data,
}
use smb_browser.Client.Operators.Objects.{ioctl}
use smb_browser.Protocol.Buffers.{copied}
use smb_browser.Protocol.File.{CreateResponse, CreateRequestOptions}
use smb_browser.Protocol.Ioctl.{
  CopyChunkResponse, IoctlRequestOptions, IoctlResponse, build_srv_copy_chunk_request,
  decode_srv_copy_chunk_response,
}
use smb_browser.Session.{Reply, Session, allocated, handed_on, refuse, then_with, unless_stopped}
use smb_browser.Session.Files.{open_file}
use smb_browser.Session.Objects.{NativeObjectMutationResult}
use smb_browser.Wire.{
  Built, DecodeResult, ErrorCode, FileId, ProtocolError, built, cancelled, failure, fault, invalid,
  protocol_unsupported, success, unsupported_capability,
}

-- `cleanupContext` has no token and no callback.
unfoldable pub never_cancelled {ℓ} : {A : Type ℓ} → Client A → Client A
never_cancelled (finish a) = finish a
never_cancelled (send frame f) = send frame λ answer. never_cancelled (f answer)
never_cancelled (poll f) = never_cancelled (f false)
never_cancelled (report a b m) = report a b (never_cancelled m)

-- `(void)closeSource(…)`: a result, good or bad, is dropped; an exception is not.
unfoldable pub dropped {ℓ} : {A : Type ℓ} → Ending A → Ending (Unit {0})
dropped (returned (success a)) = returned (success tt)
dropped (returned (failure e)) = returned (success tt)
dropped (returned fault) = returned fault
dropped (thrown m) = thrown m
dropped unfinished = unfinished

-- closeSource and closeTarget
unfoldable pub close_cleanup : Session → FileId → Client (Reply (Unit {0}))
close_cleanup s f =
    allocated s 1 (λ u. u)
      λ m t i. and_then (never_cancelled (close (close_options f) m t i)) λ o. finish (dropped o)

-- What follows a result of the session, good or bad.
unfoldable pub either {ℓ κ} :
    {A : Type ℓ} {B : Type κ}
    → Session
    → Ending A
    → (Session → ProtocolError → Client (Reply B))
    → (Session → A → Client (Reply B))
    → Client (Reply B)
either s (returned (success a)) bad good = good s a
either s (returned (failure e)) bad good = bad s e
either s (returned fault) bad good = finish (record { session = s; ending = returned fault })
either s (thrown m) bad good = finish (record { session = s; ending = thrown m })
either s unfinished bad good = finish (record { session = s; ending = unfinished })

-- The error that mutationFailure makes.
unfoldable pub error_of : ErrorCode → String → ProtocolError
error_of code message = record { code = code; message = message; messages_used = 0 }

unfoldable pub copy_source_options : List ℕ → CreateRequestOptions
copy_source_options path =
    create_options path (file_read_data + file_read_attributes) file_attribute_normal file_open
      file_non_directory_file

unfoldable pub copy_target_options : List ℕ → CreateRequestOptions
copy_target_options path =
    create_options path (file_write_data + file_write_attributes + file_read_attributes)
      file_attribute_normal file_overwrite_if file_non_directory_file

-- resumeOptions
unfoldable pub resume_options : FileId → IoctlRequestOptions
resume_options f = record {
  ctl_code = 0x00140078;
  file_id = f;
  input = [];
  max_input_response = 0;
  max_output_response = 32;
  flags = 1;
}

-- copyOptions
unfoldable pub copy_chunk_options : FileId → List ℕ → IoctlRequestOptions
copy_chunk_options f input = record {
  ctl_code = 0x001440f2;
  file_id = f;
  input = input;
  max_input_response = 0;
  max_output_response = 16;
  flags = 1;
}

-- The size of the next chunk: kCopyChunkSize at most.
unfoldable pub chunk_length : ℕ → ℕ → ℕ
chunk_length offset size = if ltb 1048576 (size - offset) then 1048576 else size - offset

unfoldable pub chunk_request : List ℕ → ℕ → ℕ → Built
chunk_request resume_key offset size =
    build_srv_copy_chunk_request resume_key
      (record { source_offset = offset; target_offset = offset; size = size } ∷ [])

module _ (source target : FileId) (path : List ℕ) (size : ℕ) where
  -- closeBoth, and what the operation then returns.
  unfoldable pub close_both :
      Session → DecodeResult NativeObjectMutationResult → Client (Reply NativeObjectMutationResult)
  close_both s result = then_with (close_cleanup s target) λ s1 u.
      then_with (close_cleanup s1 source)
        λ s2 v. finish (record { session = s2; ending = returned result })

  unfoldable pub abandon : Session → ProtocolError → Client (Reply NativeObjectMutationResult)
  abandon s e = close_both s (failure (handed_on e))

  unfoldable pub complete : Session → Client (Reply NativeObjectMutationResult)
  complete s = close_both s (success (record { path = path }))

  -- What the loop does with the server's count of the bytes that it copied.
  unfoldable pub chunk_copied :
      ℕ
      → Session
      → DecodeResult CopyChunkResponse
      → (ℕ → Session → Client (Reply NativeObjectMutationResult))
      → Client (Reply NativeObjectMutationResult)
  chunk_copied wanted s fault onward = finish (record { session = s; ending = returned fault })
  chunk_copied wanted s (failure e) onward = abandon s e
  chunk_copied wanted s (success parsed) onward =
      if parsed.total_bytes_written == 0 || ltb wanted parsed.total_bytes_written
      then abandon s
          (error_of protocol_unsupported "SMB server-side copy returned an invalid byte count.")
      else onward parsed.total_bytes_written s

  -- The FSCTL_SRV_COPYCHUNK of a round, when its input could be built.
  unfoldable pub send_chunk :
      Built
      → ℕ
      → Session
      → (ℕ → Session → Client (Reply NativeObjectMutationResult))
      → Client (Reply NativeObjectMutationResult)
  send_chunk (invalid m) offset s onward = finish (record { session = s; ending = thrown m })
  send_chunk (built input) offset s onward =
      and_then (allocated s 1 (λ r. r) λ m t i. ioctl m t i (copy_chunk_options target input)) λ r.
        either r.session r.ending abandon λ s1 copied.
          chunk_copied (chunk_length offset size) s1 (decode_srv_copy_chunk_response copied.output)
            onward

  -- One round of the loop.
  unfoldable pub copy_chunk :
      List ℕ
      → ℕ
      → Session
      → (ℕ → Session → Client (Reply NativeObjectMutationResult))
      → Client (Reply NativeObjectMutationResult)
  copy_chunk resume_key offset s onward = poll λ b.
      if b
      then abandon s (error_of cancelled "SMB server-side copy was cancelled.")
      else send_chunk (chunk_request resume_key offset (chunk_length offset size)) offset s onward

  -- The loop from an offset on: as many rounds as the first argument says.
  unfoldable pub copy_loop : ℕ → List ℕ → ℕ → Session → Client (Reply NativeObjectMutationResult)
  copy_loop zero resume_key offset s =
      if ltb offset size then finish (record { session = s; ending = unfinished }) else complete s
  copy_loop (suc rounds) resume_key offset s =
      let onward = λ (total : ℕ) (s1 : Session).
        report (offset + total) size (copy_loop rounds resume_key (offset + total) s1) in
      if ltb offset size then copy_chunk resume_key offset s onward else complete s

  -- Behind the resume key's answer. A round copies one byte at least, so `size` rounds are enough.
  unfoldable pub with_resume_key :
      Session → IoctlResponse → Client (Reply NativeObjectMutationResult)
  with_resume_key s resume =
      if ltb (length resume.output) 24
      then abandon s
          (error_of unsupported_capability "SMB server-side copy resume key response is too short.")
      else copy_loop size resume.output 0 s

  -- Behind the second CREATE: both files are open.
  unfoldable pub copy_opened : Session → Client (Reply NativeObjectMutationResult)
  copy_opened s =
      if size == 0
      then complete s
      else and_then (allocated s 1 (λ r. r) λ m t i. ioctl m t i (resume_options source))
          λ r. either r.session r.ending abandon with_resume_key

-- Behind the first CREATE.
unfoldable pub copy_to :
    List ℕ → ℕ → Session → CreateResponse → Client (Reply NativeObjectMutationResult)
copy_to target_path size s1 source =
    let stopped =
      then_with (close_cleanup s1 source.file_id)
        λ s2 u. refuse s2 cancelled "SMB server-side copy was cancelled." in
    let target_failed = λ (s2 : Session) (e : ProtocolError).
      then_with (close_cleanup s2 source.file_id)
        λ s3 u. finish (record { session = s3; ending = returned (failure (handed_on e)) }) in
    let opened =
      and_then (allocated s1 1 (λ r. r) (open_file (copy_target_options target_path))) λ r.
        either r.session r.ending target_failed
          λ s2 target. copy_opened source.file_id target.file_id target_path size s2 in
    poll λ b. if b then stopped else opened

-- copyFileServerSide
unfoldable pub copy_file_server_side :
    Session → List ℕ → List ℕ → ℕ → Client (Reply NativeObjectMutationResult)
copy_file_server_side s source_path target_path size =
    unless_stopped s "SMB server-side copy was cancelled." (
      then_with (allocated s 1 (λ r. r) (open_file (copy_source_options source_path)))
        (copy_to target_path size))
