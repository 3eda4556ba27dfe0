-- ===== src/Client/Safety/Requests.antt =====
-- The requests of Protocol.cpp as messages: which command and ids each carries.
use smb_browser.Base.{Bool, String, arith, false, true, ◌%◌, ◌*◌, ◌++◌, ◌/◌, ◌^◌, ◌≡◌, List, ℕ, ◌+◌}
use smb_browser.Client.Traces.{IsFrame}
use smb_browser.Protocol.Directory.{QueryDirectoryRequestOptions, build_query_directory_request}
use smb_browser.Protocol.File.{
  CloseRequestOptions, build_close_request, CreateRequestOptions, build_create_request,
}
use smb_browser.Protocol.Frame.{encode_direct_tcp_frame}
use smb_browser.Protocol.Header.{Smb2SyncHeader, encode_smb2_sync_header, request}
use smb_browser.Protocol.Info.{
  QueryInfoRequestOptions, SetInfoRequestOptions, build_query_info_request, build_set_info_request,
}
use smb_browser.Protocol.Ioctl.{IoctlRequestOptions, build_ioctl_request}
use smb_browser.Protocol.Notify.{ChangeNotifyRequestOptions, build_change_notify_request}
use smb_browser.Protocol.Session.{SessionSetupRequestOptions, build_session_setup_request}
use smb_browser.Protocol.Transfer.{
  ReadRequestOptions, WriteRequestOptions, build_read_request, build_write_request, charged,
}
use smb_browser.Protocol.Tree.{TreeConnectRequestOptions, build_tree_connect_request}
use smb_browser.Wire.{Built, built, invalid, throw_if, u16_le, u32_le, u64_le, with_built}
use smb_browser.Wire.Reads.{u16_of, u32_of, u64_of}
use smb_browser.Protocol.Command

-- What holds of the bytes of a builder that returns.
abbrev pub Builds : (List ℕ → Type 0) → Built → Type 0
Builds P (built bytes) = P bytes
Builds P (invalid m) = Unit {0}

pub Builds-Any : (r : Built) → Builds (λ bytes. Unit {0}) r
Builds-Any (built bytes) = tt
Builds-Any (invalid m) = tt

module _ (P : List ℕ → Type 0) where
  pub Builds-throw_if : (b : Bool) (m : String) (k : Built) → Builds P k → Builds P (throw_if b m k)
  unfolding throw_if
  Builds-throw_if true m k h = tt
  Builds-throw_if false m k h = h

  pub Builds-with_built :
      (r : Built) (k : List ℕ → Built)
      → ((bytes : List ℕ) → Builds P (k bytes))
      → Builds P (with_built r k)
  unfolding with_built
  Builds-with_built (built bytes) k h = h bytes
  Builds-with_built (invalid m) k h = tt

-- A message with this command, tree, session and message id, each cut to the width of its field.
pub record IsMessage (tree_id session_id command message_id : ℕ) (bytes : List ℕ) : Type 0 where
  pub of_command : u16_of bytes 12 ≡ command % 2 ^ 16
  pub of_message : u64_of bytes 24 ≡ message_id % 2 ^ 64
  pub of_tree : u32_of bytes 36 ≡ tree_id % 2 ^ 32
  pub of_session : u64_of bytes 40 ≡ session_id % 2 ^ 64

u16_truncated : (v : ℕ) → v % 256 + v / 256 % 256 * 256 ≡ v % 65536
u16_truncated v = omega arith

u32_truncated :
    (v : ℕ)
    → v % 256 + v / 256 % 256 * 256 + v / 65536 % 256 * 65536 + v / 16777216 % 256 * 16777216
      ≡ v % 4294967296
u32_truncated v = omega arith

u64_truncated :
    (v : ℕ) → v % 4294967296 + v / 4294967296 % 4294967296 * 4294967296 ≡ v % 18446744073709551616
u64_truncated v = omega arith

u64_written :
    (v : ℕ)
    → v % 256
        + v / 256 % 256 * 256
        + v / 65536 % 256 * 65536
        + v / 16777216 % 256 * 16777216
        + (v / 4294967296 % 256
            + v / 4294967296 / 256 % 256 * 256
            + v / 4294967296 / 65536 % 256 * 65536
            + v / 4294967296 / 16777216 % 256 * 16777216)
          * 4294967296
      ≡ v % 18446744073709551616
u64_written v = rw (u32_truncated v, u32_truncated (v / 4294967296)) (u64_truncated v)

-- The header stands in front of every message.
pub encode_smb2_sync_header-IsMessage :
    (h : Smb2SyncHeader) (rest : List ℕ)
    → IsMessage h.tree_id h.session_id h.command h.message_id (encode_smb2_sync_header h ++ rest)
unfolding encode_smb2_sync_header u16_le u32_le u64_le
encode_smb2_sync_header-IsMessage h rest = record {
  of_command = u16_truncated h.command;
  of_message = u64_written h.message_id;
  of_tree = u32_truncated h.tree_id;
  of_session = u64_written h.session_id;
}

pub encode_direct_tcp_frame-IsFrame :
    (t s c n : ℕ) (request : Built)
    → Builds (IsMessage t s c n) request
    → Builds (IsFrame t s c n) (with_built request encode_direct_tcp_frame)
unfolding with_built encode_direct_tcp_frame
encode_direct_tcp_frame-IsFrame t s c n (built bytes) h =
    Builds-throw_if (IsFrame t s c n) _ _ _ (record {
      of_command = h.of_command;
      of_message = h.of_message;
      of_tree = h.of_tree;
      of_session = h.of_session;
    })
encode_direct_tcp_frame-IsFrame t s c n (invalid m) h = tt

module _ (n t s : ℕ) where
  pub build_create_request-IsMessage :
      (o : CreateRequestOptions)
      → Builds (IsMessage t s Command.create n) (build_create_request o n t s)
  unfolding build_create_request request
  build_create_request-IsMessage o =
      let P = IsMessage t s Command.create n in
      Builds-with_built P _ _ λ name.
        Builds-throw_if P _ _ _ (Builds-throw_if P _ _ _ (encode_smb2_sync_header-IsMessage _ _))

  pub build_read_request-IsMessage :
      (o : ReadRequestOptions) → Builds (IsMessage t s Command.read n) (build_read_request o n t s)
  unfolding build_read_request request charged
  build_read_request-IsMessage o =
      Builds-throw_if (IsMessage t s Command.read n) _ _ _ (encode_smb2_sync_header-IsMessage _ _)

  pub build_write_request-IsMessage :
      (o : WriteRequestOptions)
      → Builds (IsMessage t s Command.write n) (build_write_request o n t s)
  unfolding build_write_request request charged
  build_write_request-IsMessage o =
      let P = IsMessage t s Command.write n in
      Builds-throw_if P _ _ _ (Builds-throw_if P _ _ _ (encode_smb2_sync_header-IsMessage _ _))

  pub build_close_request-IsMessage :
      (o : CloseRequestOptions)
      → Builds (IsMessage t s Command.close n) (build_close_request o n t s)
  unfolding build_close_request request
  build_close_request-IsMessage o = encode_smb2_sync_header-IsMessage _ _

  pub build_query_info_request-IsMessage :
      (o : QueryInfoRequestOptions)
      → Builds (IsMessage t s Command.query_info n) (build_query_info_request o n t s)
  unfolding build_query_info_request request
  build_query_info_request-IsMessage o =
      Builds-throw_if (IsMessage t s Command.query_info n) _ _ _
        (encode_smb2_sync_header-IsMessage _ _)

  pub build_set_info_request-IsMessage :
      (o : SetInfoRequestOptions)
      → Builds (IsMessage t s Command.set_info n) (build_set_info_request o n t s)
  unfolding build_set_info_request request
  build_set_info_request-IsMessage o =
      Builds-throw_if (IsMessage t s Command.set_info n) _ _ _
        (encode_smb2_sync_header-IsMessage _ _)

  pub build_ioctl_request-IsMessage :
      (o : IoctlRequestOptions)
      → Builds (IsMessage t s Command.ioctl n) (build_ioctl_request o n t s)
  unfolding build_ioctl_request request
  build_ioctl_request-IsMessage o =
      Builds-throw_if (IsMessage t s Command.ioctl n) _ _ _ (encode_smb2_sync_header-IsMessage _ _)

  pub build_change_notify_request-IsMessage :
      (o : ChangeNotifyRequestOptions)
      → Builds (IsMessage t s Command.change_notify n) (build_change_notify_request o n t s)
  unfolding build_change_notify_request request
  build_change_notify_request-IsMessage o = encode_smb2_sync_header-IsMessage _ _

  pub build_query_directory_request-IsMessage :
      (o : QueryDirectoryRequestOptions)
      → Builds (IsMessage t s Command.query_directory n) (build_query_directory_request o n t s)
  unfolding build_query_directory_request request
  build_query_directory_request-IsMessage o =
      let P = IsMessage t s Command.query_directory n in
      Builds-with_built P _ _
        λ name. Builds-throw_if P _ _ _ (encode_smb2_sync_header-IsMessage _ _)

module _ (n s : ℕ) where
  pub build_tree_connect_request-IsMessage :
      (o : TreeConnectRequestOptions)
      → Builds (IsMessage 0 s Command.tree_connect n) (build_tree_connect_request o n s)
  unfolding build_tree_connect_request request
  build_tree_connect_request-IsMessage o =
      let P = IsMessage 0 s Command.tree_connect n in
      Builds-with_built P _ _ λ unc.
        Builds-with_built P _ _
          λ path. Builds-throw_if P _ _ _ (encode_smb2_sync_header-IsMessage _ _)

  pub build_session_setup_request-IsMessage :
      (o : SessionSetupRequestOptions)
      → Builds (IsMessage 0 s Command.session_setup n) (build_session_setup_request o n s)
  unfolding build_session_setup_request request
  build_session_setup_request-IsMessage o =
      Builds-throw_if (IsMessage 0 s Command.session_setup n) _ _ _
        (encode_smb2_sync_header-IsMessage _ _)
