-- ===== src/Protocol/Header.antt =====
-- The SMB2 sync header of Protocol.cpp (encodeSmb2SyncHeader, decodeSmb2SyncHeader), and the checks
-- with which every response decoder there begins.
pub mod RoundTrip
pub mod Responses
pub mod Accepts
use smb_browser.Base.{
  replicate, ℕ, ◌+◌, bit_and, ltb, ◌==◌, Bool, true, false, not, List, ◌++◌, length, String, ◌<>◌,
}
use smb_browser.Wire.{
  DecodeResult, success, ◌>>=◌, ◌>>◌, reject_if, io_error, protocol_unsupported, u16_le, u32_le,
  u64_le, read_u16_le, read_u32_le, read_u64_le, slice,
}
use smb_browser.Protocol.Status.{status_success, failure_from_nt_status}

-- Protocol.h. A `Command` is any 16-bit value, since decodeSmb2SyncHeader casts what it reads.
pub record Smb2SyncHeader : Type 0 where
  pub credit_charge : ℕ
  pub status : ℕ
  pub command : ℕ
  pub credit_request : ℕ
  pub flags : ℕ
  pub next_command : ℕ
  pub message_id : ℕ
  pub tree_id : ℕ
  pub session_id : ℕ
  pub signature : List ℕ

abbrev pub smb2_header_size : ℕ
smb2_header_size = 64

abbrev pub smb2_protocol_id : ℕ
smb2_protocol_id = 0x424d53fe

abbrev pub smb2_process_id : ℕ
smb2_process_id = 0x0000feff

abbrev pub flag_server_to_redir : ℕ
flag_server_to_redir = 1

-- encodeSmb2SyncHeader
unfoldable pub encode_smb2_sync_header : Smb2SyncHeader → List ℕ
unfolding u16_le u32_le u64_le
encode_smb2_sync_header header =
    u32_le smb2_protocol_id
    ++ u16_le smb2_header_size
    ++ u16_le header.credit_charge
    ++ u32_le header.status
    ++ u16_le header.command
    ++ u16_le header.credit_request
    ++ u32_le header.flags
    ++ u32_le header.next_command
    ++ u64_le header.message_id
    ++ u32_le smb2_process_id
    ++ u32_le header.tree_id
    ++ u64_le header.session_id
    ++ header.signature

-- The header with which a builder starts: one credit, no flag, no signature.
unfoldable pub request : ℕ → ℕ → ℕ → ℕ → Smb2SyncHeader
request command message_id tree_id session_id = record {
  credit_charge = 1;
  status = 0;
  command = command;
  credit_request = 1;
  flags = 0;
  next_command = 0;
  message_id = message_id;
  tree_id = tree_id;
  session_id = session_id;
  signature = replicate 16 0;
}

-- decodeSmb2SyncHeader
unfoldable pub decode_smb2_sync_header : List ℕ → DecodeResult Smb2SyncHeader
decode_smb2_sync_header bytes = do
  reject_if (ltb (length bytes) smb2_header_size) io_error
      "SMB2 header buffer is shorter than 64 bytes."
  protocol_id ← read_u32_le bytes 0
  reject_if (not (protocol_id == smb2_protocol_id)) protocol_unsupported
      "Invalid SMB2 protocol identifier."
  structure_size ← read_u16_le bytes 4
  reject_if (not (structure_size == smb2_header_size)) protocol_unsupported
      "Invalid SMB2 header structure size."
  credit_charge ← read_u16_le bytes 6
  status ← read_u32_le bytes 8
  command ← read_u16_le bytes 12
  credit_request ← read_u16_le bytes 14
  flags ← read_u32_le bytes 16
  next_command ← read_u32_le bytes 20
  message_id ← read_u64_le bytes 24
  tree_id ← read_u32_le bytes 36
  session_id ← read_u64_le bytes 40
  signature ← slice bytes 48 64
  success (record {
    credit_charge = credit_charge;
    status = status;
    command = command;
    credit_request = credit_request;
    flags = flags;
    next_command = next_command;
    message_id = message_id;
    tree_id = tree_id;
    session_id = session_id;
    signature = signature;
  })

-- What tells the decoders of the responses apart in their first checks.
pub record ResponseKind : Type 0 where
  pub command : ℕ
  pub article : String
  pub name : String
  pub fixed_size : ℕ
  pub structure_size : ℕ

-- The header, the command and the server-to-redirector flag.
unfoldable pub response_header : ResponseKind → List ℕ → DecodeResult Smb2SyncHeader
response_header kind bytes = do
  header ← decode_smb2_sync_header bytes
  reject_if (not (header.command == kind.command)) protocol_unsupported
      ("SMB2 response is not " <> kind.article <> " " <> kind.name <> " response.")
  reject_if (bit_and header.flags flag_server_to_redir == 0) protocol_unsupported
      ("SMB2 " <> kind.name <> " response is missing server-to-redirector flag.")
  success header

-- The size of the fixed part and its structure size.
unfoldable pub fixed_response : ResponseKind → List ℕ → DecodeResult (Unit {0})
fixed_response kind bytes = do
  reject_if (ltb (length bytes) (smb2_header_size + kind.fixed_size)) io_error
      ("SMB2 " <> kind.name <> " response buffer is shorter than fixed response.")
  structure_size ← read_u16_le bytes smb2_header_size
  reject_if (not (structure_size == kind.structure_size)) protocol_unsupported
      ("Invalid SMB2 " <> kind.name <> " response structure size.")
  success tt

-- `if (status != expected) return failureFromNtStatus(…);`
unfoldable pub require_status : Bool → ℕ → ResponseKind → DecodeResult (Unit {0})
require_status true status kind = success tt
require_status false status kind = failure_from_nt_status status ("SMB2 " <> kind.name)

-- The checks of a response that must have STATUS_SUCCESS.
unfoldable pub success_response : ResponseKind → List ℕ → DecodeResult Smb2SyncHeader
success_response kind bytes = do
  header ← response_header kind bytes
  require_status (header.status == status_success) header.status kind
  fixed_response kind bytes
  success header
