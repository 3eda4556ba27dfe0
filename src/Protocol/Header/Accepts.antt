-- ===== src/Protocol/Header/Accepts.antt =====
-- The checks with which the response decoders begin, on the messages that they admit.
use smb_browser.Base.{
  ◌++◌, List, arith, bit_and, false, length, le→not_ltb, refl, true, ℕ, ◌+◌, ◌<>◌, ◌==◌, ◌≡◌, ◌≤◌,
}
use smb_browser.Protocol.Header.{
  Smb2SyncHeader, encode_smb2_sync_header, ResponseKind, decode_smb2_sync_header, fixed_response,
  flag_server_to_redir, require_status, response_header, smb2_header_size, smb2_protocol_id,
  success_response,
}
use smb_browser.Protocol.Header.Responses.{HasFixedPart, IsResponse, IsSuccess, header_of}
use smb_browser.Protocol.Header.RoundTrip.{IsHeader, decode_smb2_sync_header-encode}
use smb_browser.Protocol.Status.{status_success}
use smb_browser.Wire.{failed, protocol_unsupported, reject_if, success, ◌>>=◌, ◌>>◌}
use smb_browser.Wire.Reads.{
  read_u16_le_in, read_u32_le_in, read_u64_le_in, slice_in, u16_of, u32_of,
}

pub decode_smb2_sync_header_in :
    (bytes : List ℕ)
    → 64 ≤ length bytes
    → u32_of bytes 0 ≡ smb2_protocol_id
    → u16_of bytes 4 ≡ smb2_header_size
    → decode_smb2_sync_header bytes ≡ success (header_of bytes)
unfolding decode_smb2_sync_header ◌>>=◌ ◌>>◌ reject_if
decode_smb2_sync_header_in bytes size id structure = ground (
  arith,
  read_u32_le_in bytes 0,
  read_u16_le_in bytes 4,
  read_u16_le_in bytes 6,
  read_u32_le_in bytes 8,
  read_u16_le_in bytes 12,
  read_u16_le_in bytes 14,
  read_u32_le_in bytes 16,
  read_u32_le_in bytes 20,
  read_u64_le_in bytes 24,
  read_u32_le_in bytes 36,
  read_u64_le_in bytes 40,
  slice_in bytes 48 64,
)

pub response_header_in :
    (kind : ResponseKind) (bytes : List ℕ)
    → IsResponse kind bytes
    → response_header kind bytes ≡ success (header_of bytes)
unfolding response_header ◌>>=◌ ◌>>◌ reject_if
response_header_in kind bytes r =
    let same : (u16_of bytes 12 == kind.command) ≡ true = ground arith in
    let flagged : (bit_and (u32_of bytes 16) flag_server_to_redir == 0) ≡ false = ground arith in
    rw (decode_smb2_sync_header_in bytes r.size r.protocol_id r.structure_size, same, flagged) refl

pub fixed_response_in :
    (kind : ResponseKind) (bytes : List ℕ)
    → HasFixedPart kind bytes
    → 2 ≤ kind.fixed_size
    → fixed_response kind bytes ≡ success tt
unfolding fixed_response ◌>>=◌ ◌>>◌ reject_if
fixed_response_in kind bytes fixed wide =
    let same : (u16_of bytes 64 == kind.structure_size) ≡ true = ground arith in
    rw
      (
        le→not_ltb (length bytes) (64 + kind.fixed_size) fixed.fixed_size,
        read_u16_le_in bytes 64 (omega arith),
        same,
      )
      refl

pub success_response_in :
    (kind : ResponseKind) (bytes : List ℕ)
    → IsSuccess kind bytes
    → 2 ≤ kind.fixed_size
    → success_response kind bytes ≡ success (header_of bytes)
unfolding success_response require_status ◌>>=◌ ◌>>◌ reject_if
success_response_in kind bytes s wide =
    let zero_status : (u32_of bytes 8 == status_success) ≡ true = ground arith in
    rw
      (
        response_header_in kind bytes s.response,
        zero_status,
        fixed_response_in kind bytes s.fixed_part wide,
      )
      refl

-- The checks of the response decoders refuse an encoded message of their own command whose
-- header does not have the server-to-redirector flag, as an unsupported protocol: a request
-- that comes back is not taken for its response.
pub response_header_reflected :
    (kind : ResponseKind) (h : Smb2SyncHeader) (rest : List ℕ)
    → IsHeader h
    → h.command ≡ kind.command
    → bit_and h.flags flag_server_to_redir ≡ 0
    → response_header kind (encode_smb2_sync_header h ++ rest)
      ≡ failed protocol_unsupported
          ("SMB2 " <> kind.name <> " response is missing server-to-redirector flag.")
unfolding response_header ◌>>=◌ ◌>>◌ reject_if
response_header_reflected kind h rest v same unset =
    let known : (h.command == kind.command) ≡ true = ground arith in
    let missing : (bit_and h.flags flag_server_to_redir == 0) ≡ true = ground arith in
    rw (decode_smb2_sync_header-encode h rest v, known, missing) refl
