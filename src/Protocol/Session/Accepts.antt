-- ===== src/Protocol/Session/Accepts.antt =====
-- The decoders of Session on the messages that they accept.
use smb_browser.Base.{List, arith, false, length, ltb, refl, true, ℕ, ◌+◌, ◌==◌, ◌||◌, ◌≡◌}
use smb_browser.Protocol.Buffers.Safety.{IsInside-out_of_bounds, copied_in, slice_buffer}
use smb_browser.Protocol.Header.{require_status, smb2_header_size}
use smb_browser.Protocol.Header.Accepts.{fixed_response_in, response_header_in, success_response_in}
use smb_browser.Protocol.Session.{
  decode_negotiate_response, decode_session_setup_response, negotiate_kind, session_setup_kind,
}
use smb_browser.Protocol.Session.Safety.{
  IsNegotiate, IsSessionSetup, negotiate_response_of, session_setup_response_of,
}
use smb_browser.Protocol.Status.{status_more_processing_required, status_success}
use smb_browser.Wire.{reject_if, success, ◌>>=◌, ◌>>◌}
use smb_browser.Wire.Reads.{
  read_u16_le_in, read_u32_le_in, read_u64_le_in, slice_in, u16_of, u32_of,
}

-- decodeNegotiateResponse succeeds on every NEGOTIATE response of the server with
-- STATUS_SUCCESS whose fixed part is complete, whose dialect was offered and whose security
-- buffer lies in the message behind the header, and returns that buffer and the fields at their
-- offsets.
pub decode_negotiate_response_in :
    (bytes offered_dialects : List ℕ)
    → IsNegotiate offered_dialects bytes
    → decode_negotiate_response bytes offered_dialects ≡ success (negotiate_response_of bytes)
unfolding decode_negotiate_response ◌>>=◌ ◌>>◌ reject_if
decode_negotiate_response_in bytes offered_dialects s =
    let long = s.accepted.fixed_part.fixed_size in
    let low = s.buffer_low in
    let high = s.buffer_high in
    let inside : (ltb (u16_of bytes 120) smb2_header_size
          || (ltb (length bytes) (u16_of bytes 120 + u16_of bytes 122)
              || ltb (u16_of bytes 120 + u16_of bytes 122) (u16_of bytes 120)))
        ≡ false =
      ground arith in
    rw
      (
        success_response_in negotiate_kind bytes s.accepted (omega arith),
        read_u16_le_in bytes 68 (omega arith),
        s.dialect_offered,
        read_u16_le_in bytes 120 (omega arith),
        read_u16_le_in bytes 122 (omega arith),
        inside,
        read_u16_le_in bytes 66 (omega arith),
        read_u16_le_in bytes 70 (omega arith),
        read_u32_le_in bytes 88 (omega arith),
        read_u32_le_in bytes 92 (omega arith),
        read_u32_le_in bytes 96 (omega arith),
        read_u32_le_in bytes 100 (omega arith),
        read_u64_le_in bytes 104 (omega arith),
        read_u64_le_in bytes 112 (omega arith),
        read_u32_le_in bytes 124 (omega arith),
        slice_in bytes 72 88 (omega arith) (omega arith),
        slice_buffer bytes (u16_of bytes 120) (u16_of bytes 122) (omega arith),
      )
      refl

-- decodeSessionSetupResponse succeeds on every SESSION_SETUP response of the server with
-- STATUS_SUCCESS or STATUS_MORE_PROCESSING_REQUIRED whose fixed part is complete and whose
-- security buffer, if there is any, lies in the message behind the header, and returns that
-- buffer, the session id and the flags.
pub decode_session_setup_response_in :
    (bytes : List ℕ)
    → IsSessionSetup bytes
    → decode_session_setup_response bytes ≡ success (session_setup_response_of bytes)
unfolding decode_session_setup_response require_status ◌>>=◌ ◌>>◌ reject_if
decode_session_setup_response_in bytes s =
    let long = s.fixed_part.fixed_size in
    let accepted = s.status in
    let known : (u32_of bytes 8 == status_success
          || u32_of bytes 8 == status_more_processing_required)
        ≡ true =
      ground arith in
    rw
      (
        response_header_in session_setup_kind bytes s.response,
        known,
        fixed_response_in session_setup_kind bytes s.fixed_part (omega arith),
        read_u16_le_in bytes 68 (omega arith),
        read_u16_le_in bytes 70 (omega arith),
        IsInside-out_of_bounds (u16_of bytes 68) (u16_of bytes 70) bytes s.inside,
        read_u16_le_in bytes 66 (omega arith),
        copied_in (u16_of bytes 68) (u16_of bytes 70) bytes s.inside,
      )
      refl
