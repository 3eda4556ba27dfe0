-- ===== src/Protocol/Session/Safety.antt =====
-- The decoders of Session on any message.
use smb_browser.Base.{
  ap, false, ltb, ◌||◌, List, arith, bit_and, drop, length, not, not-false, refl, take, true, ℕ,
  ◌+◌, ◌==◌, ◌≡◌, ◌≤◌, ◌⊎◌,
}
use smb_browser.Protocol.Buffers.Safety.{
  IsInside, buffer_of, copied_in, out_of_bounds-IsInside, slice_buffer,
}
use smb_browser.Protocol.Header.{Smb2SyncHeader, smb2_header_size}
use smb_browser.Protocol.Header.Responses.{
  header_of, Ensures-require_status, Ensures-success, HasFixedPart, IsResponse, IsSuccess,
  WithHeader, fixed_response-Ensures, response_header-Ensures,
}
use smb_browser.Protocol.Session.{
  NegotiateResponse, SessionSetupResponse, decode_negotiate_response, decode_session_setup_response,
  has_dialect, negotiate_kind, session_setup_kind,
}
use smb_browser.Protocol.Status.{status_more_processing_required, status_success}
use smb_browser.Wire.{◌>>=◌}
use smb_browser.Wire.Reads.{
  Ensures, Ensures-bind, Ensures-reject_if, Ensures-step, Ensures-then, read_u16_le_in,
  read_u32_le_in, read_u64_le_in, slice_in, u16_of, u32_of, u64_of,
}

abbrev pub negotiate_response_of : List ℕ → NegotiateResponse
negotiate_response_of bytes = record {
  security_mode = u16_of bytes 66;
  dialect = u16_of bytes 68;
  negotiate_context_count = u16_of bytes 70;
  server_guid = take 16 (drop 72 bytes);
  capabilities = u32_of bytes 88;
  max_transact_size = u32_of bytes 92;
  max_read_size = u32_of bytes 96;
  max_write_size = u32_of bytes 100;
  system_time = u64_of bytes 104;
  server_start_time = u64_of bytes 112;
  security_buffer = buffer_of bytes (u16_of bytes 120) (u16_of bytes 122);
  negotiate_context_offset = u32_of bytes 124;
}

-- A successful NEGOTIATE response of the server that selects a dialect of `offered`, with a security
-- buffer inside the message.
pub record IsNegotiate (offered : List ℕ) (bytes : List ℕ) : Type 0 where
  pub accepted : IsSuccess negotiate_kind bytes
  pub dialect_offered : has_dialect offered (u16_of bytes 68) ≡ true
  pub buffer_low : 64 ≤ u16_of bytes 120
  pub buffer_high : u16_of bytes 120 + u16_of bytes 122 ≤ length bytes

security_buffer_inside :
    (offset size total : ℕ)
    → (ltb offset smb2_header_size || (ltb total (offset + size) || ltb (offset + size) offset))
      ≡ false
    → (64 ≤ offset) × (offset + size ≤ total)
security_buffer_inside offset size total h = ground arith

-- On every buffer and list of offered dialects, decodeNegotiateResponse reads inside the
-- buffer. It accepts only a NEGOTIATE response of the server with STATUS_SUCCESS whose dialect
-- was offered and whose security buffer lies in the message behind the header, and it returns
-- that buffer and the fields at their offsets.
pub decode_negotiate_response-Ensures :
    (bytes offered_dialects : List ℕ)
    → Ensures
        (λ r. IsNegotiate offered_dialects bytes × (r ≡ negotiate_response_of bytes))
        (decode_negotiate_response bytes offered_dialects)
unfolding decode_negotiate_response ◌>>=◌
decode_negotiate_response-Ensures bytes offered_dialects =
    Ensures-success Q negotiate_kind bytes _ (omega arith) λ found.
      rw (read_u16_le_in bytes 68 (omega arith)) (
        Ensures-reject_if Q _ _ _ _ λ known.
          rw (read_u16_le_in bytes 120 (omega arith), read_u16_le_in bytes 122 (omega arith))
            (Ensures-reject_if Q _ _ _ _ λ bounds.
              let (low, high) =
                security_buffer_inside (u16_of bytes 120) (u16_of bytes 122) (length bytes)
                  bounds in
              rw
                (
                  read_u16_le_in bytes 66 (omega arith),
                  read_u16_le_in bytes 70 (omega arith),
                  read_u32_le_in bytes 88 (omega arith),
                  read_u32_le_in bytes 92 (omega arith),
                  read_u32_le_in bytes 96 (omega arith),
                  read_u32_le_in bytes 100 (omega arith),
                  read_u64_le_in bytes 104 (omega arith),
                  read_u64_le_in bytes 112 (omega arith),
                  read_u32_le_in bytes 124 (omega arith),
                  slice_in bytes 72 88 (omega arith) (omega arith),
                  slice_buffer bytes (u16_of bytes 120) (u16_of bytes 122) high,
                )
                (
                  record {
                    accepted = found;
                    dialect_offered = not-false _ known;
                    buffer_low = low;
                    buffer_high = high;
                  },
                  refl,
                )))
  where
    Q : NegotiateResponse → Type 0
    Q r = IsNegotiate offered_dialects bytes × (r ≡ negotiate_response_of bytes)

abbrev pub session_setup_response_of : List ℕ → SessionSetupResponse
session_setup_response_of bytes = record {
  status = u32_of bytes 8;
  session_id = u64_of bytes 40;
  session_flags = u16_of bytes 66;
  security_buffer = buffer_of bytes (u16_of bytes 68) (u16_of bytes 70);
  more_processing_required = u32_of bytes 8 == status_more_processing_required;
  guest_session = not (bit_and (u16_of bytes 66) 1 == 0);
  null_session = not (bit_and (u16_of bytes 66) 2 == 0);
  encrypt_data = not (bit_and (u16_of bytes 66) 4 == 0);
}

-- A SESSION_SETUP response of the server that succeeded or asks for more, with a security buffer
-- inside the message.
pub record IsSessionSetup (bytes : List ℕ) : Type 0 where
  pub response : IsResponse session_setup_kind bytes
  pub status :
      (u32_of bytes 8 ≡ status_success) ⊎ (u32_of bytes 8 ≡ status_more_processing_required)
  pub fixed_part : HasFixedPart session_setup_kind bytes
  pub inside : IsInside (u16_of bytes 68) (u16_of bytes 70) bytes

accepted_status :
    (bytes : List ℕ) (h : Smb2SyncHeader)
    → (h.status == status_success || h.status == status_more_processing_required) ≡ true
    → h ≡ header_of bytes
    → (u32_of bytes 8 ≡ status_success) ⊎ (u32_of bytes 8 ≡ status_more_processing_required)
accepted_status bytes h accepted same =
    rw (← ap (λ (x : Smb2SyncHeader). x.status) same) (ground arith)

-- On every buffer, decodeSessionSetupResponse reads inside the buffer. It accepts only a
-- SESSION_SETUP response of the server with STATUS_SUCCESS or STATUS_MORE_PROCESSING_REQUIRED
-- whose security buffer, if there is any, lies in the message behind the header, and it returns
-- that buffer, the session id and the flags.
pub decode_session_setup_response-Ensures :
    (bytes : List ℕ)
    → Ensures
        (λ r. IsSessionSetup bytes × (r ≡ session_setup_response_of bytes))
        (decode_session_setup_response bytes)
unfolding decode_session_setup_response
decode_session_setup_response-Ensures bytes =
    Ensures-bind (WithHeader (IsResponse session_setup_kind) bytes) Q _ _
      (response_header-Ensures session_setup_kind bytes)
      λ h (same, found). Ensures-require_status Q _ _ _ _ λ accepted.
        Ensures-then Q (HasFixedPart session_setup_kind bytes) _ _
          (fixed_response-Ensures session_setup_kind bytes (omega arith))
          λ fixed. Ensures-step Q _ (read_u16_le_in bytes 68 (omega arith)) (
            Ensures-step Q _ (read_u16_le_in bytes 70 (omega arith)) (
              Ensures-reject_if Q _ _ _ _ λ i.
                let inside : IsInside (u16_of bytes 68) (u16_of bytes 70) bytes =
                  out_of_bounds-IsInside _ _ bytes i in
                Ensures-step Q _ (read_u16_le_in bytes 66 (omega arith)) (
                  Ensures-step Q _ (copied_in _ _ bytes inside) (
                    rw same (
                      record {
                        response = found;
                        status = accepted_status bytes h accepted same;
                        fixed_part = fixed;
                        inside = inside;
                      },
                      refl,
                    )))))
  where
    Q : SessionSetupResponse → Type 0
    Q r = IsSessionSetup bytes × (r ≡ session_setup_response_of bytes)
