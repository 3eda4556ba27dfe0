-- ===== src/Protocol/Session.antt =====
-- NEGOTIATE and SESSION_SETUP of Protocol.cpp.
pub mod Safety
pub mod Accepts
pub mod Contexts
use smb_browser.Base.{
  Bool, List, [], bit_and, false, if◌then◌else◌, is_empty, length, ltb, not, ℕ, ◌*◌, ◌++◌, ◌+◌, ◌/◌,
  ◌==◌, ◌||◌, ◌∷◌,
}
use smb_browser.Protocol.Buffers.{copied, out_of_bounds}
use smb_browser.Protocol.Header.{
  ResponseKind, encode_smb2_sync_header, fixed_response, request, require_status, response_header,
  smb2_header_size, success_response,
}
use smb_browser.Protocol.Status.{status_more_processing_required, status_success}
use smb_browser.Protocol.Transfer.{credit_charge}
use smb_browser.Wire.{
  Built, DecodeResult, built, io_error, padding, protocol_unsupported, read_u16_le, read_u32_le,
  read_u64_le, reject_if, slice, success, throw_if, u16_le, u32_le, u64_le, u8, ◌>>=◌, ◌>>◌,
}
use smb_browser.Protocol.Command

-- A `Dialect` is any 16-bit value, since decodeNegotiateResponse casts what it reads.
abbrev pub smb202 : ℕ
smb202 = 0x0202

abbrev pub smb210 : ℕ
smb210 = 0x0210

abbrev pub smb300 : ℕ
smb300 = 0x0300

abbrev pub smb302 : ℕ
smb302 = 0x0302

abbrev pub smb311 : ℕ
smb311 = 0x0311

pub data SecurityPolicy : Type 0 where
  required preferred disabled : SecurityPolicy

pub record NegotiateRequestOptions : Type 0 where
  pub dialects : List ℕ
  pub signing : SecurityPolicy
  pub capabilities : ℕ
  pub client_guid : List ℕ

pub record NegotiateResponse : Type 0 where
  pub security_mode : ℕ
  pub dialect : ℕ
  pub negotiate_context_count : ℕ
  pub server_guid : List ℕ
  pub capabilities : ℕ
  pub max_transact_size : ℕ
  pub max_read_size : ℕ
  pub max_write_size : ℕ
  pub system_time : ℕ
  pub server_start_time : ℕ
  pub security_buffer : List ℕ
  pub negotiate_context_offset : ℕ

pub record SessionSetupRequestOptions : Type 0 where
  pub flags : ℕ
  pub signing : SecurityPolicy
  pub capabilities : ℕ
  pub previous_session_id : ℕ
  pub security_buffer : List ℕ

-- `requestPayload` and `responsePayload` are filled by SessionSetupExchanger.cpp, not by the decoder.
pub record SessionSetupResponse : Type 0 where
  pub status : ℕ
  pub session_id : ℕ
  pub session_flags : ℕ
  pub security_buffer : List ℕ
  pub more_processing_required : Bool
  pub guest_session : Bool
  pub null_session : Bool
  pub encrypt_data : Bool

unfoldable pub security_mode_for_policy : SecurityPolicy → ℕ
security_mode_for_policy required = 3
security_mode_for_policy preferred = 1
security_mode_for_policy disabled = 0

abbrev pub default_initial_dialects : List ℕ
default_initial_dialects = smb202 ∷ smb210 ∷ smb300 ∷ smb302 ∷ smb311 ∷ []

-- isOfferedDialect and hasDialect.
unfoldable pub has_dialect : List ℕ → ℕ → Bool
has_dialect [] dialect = false
has_dialect (d ∷ dialects) dialect = d == dialect || has_dialect dialects dialect

-- appendNegotiateContext; the padding goes by the size of the whole message.
unfoldable pub append_negotiate_context : List ℕ → ℕ → List ℕ → List ℕ
unfolding padding
append_negotiate_context bytes type payload =
    let extended = bytes ++ (u16_le type ++ u16_le (length payload) ++ u32_le 0 ++ payload) in
    extended ++ padding (length extended) 8

-- buildPreauthIntegrityContext: one hash, SHA-512, and the client's id twice as the salt.
unfoldable pub preauth_integrity_context : List ℕ → List ℕ
preauth_integrity_context client_guid =
    let salt = client_guid ++ client_guid in u16_le 1 ++ u16_le (length salt) ++ u16_le 1 ++ salt

-- buildEncryptionCapabilitiesContext: one cipher, AES-128-CCM.
unfoldable pub encryption_capabilities_context : List ℕ
encryption_capabilities_context = u16_le 1 ++ u16_le 1

unfoldable pub dialect_words : List ℕ → List ℕ
dialect_words [] = []
dialect_words (d ∷ dialects) = u16_le d ++ dialect_words dialects

-- The message up to the dialects.
unfoldable pub negotiate_head : List ℕ → NegotiateRequestOptions → ℕ → List ℕ
negotiate_head dialects options message_id =
    let contexts = has_dialect dialects smb311 in
    let encryption = not (bit_and options.capabilities 0x40 == 0) in
    encode_smb2_sync_header
      (record (request Command.negotiate message_id 0 0) { credit_charge = 0 })
    ++ (u16_le 36
        ++ u16_le (length dialects)
        ++ u16_le (security_mode_for_policy options.signing)
        ++ u16_le 0
        ++ u32_le options.capabilities
        ++ options.client_guid
        ++ u32_le
            (if contexts then (smb2_header_size + 36 + length dialects * 2 + 7) / 8 * 8 else 0)
        ++ u16_le (if contexts then (if encryption then 2 else 1) else 0)
        ++ u16_le 0
        ++ dialect_words dialects)

-- The contexts of SMB 3.1.1 behind it.
unfoldable pub negotiate_contexts : List ℕ → NegotiateRequestOptions → List ℕ
unfolding padding
negotiate_contexts head options =
    let padded = head ++ padding (length head) 8 in
    let preauth =
      append_negotiate_context padded 1 (preauth_integrity_context options.client_guid) in
    if not (bit_and options.capabilities 0x40 == 0)
    then append_negotiate_context preauth 2 encryption_capabilities_context
    else preauth

unfoldable pub build_negotiate_request : NegotiateRequestOptions → ℕ → Built
build_negotiate_request options message_id =
    let dialects =
      if is_empty options.dialects then default_initial_dialects else options.dialects in
    throw_if (ltb 0xffff (length dialects)) "Too many SMB dialects in negotiate request." (
      let head = negotiate_head dialects options message_id in
      built (if has_dialect dialects smb311 then negotiate_contexts head options else head))

abbrev pub negotiate_kind : ResponseKind
negotiate_kind = record {
  command = Command.negotiate;
  article = "a";
  name = "NEGOTIATE";
  fixed_size = 64;
  structure_size = 65;
}

unfoldable pub decode_negotiate_response : List ℕ → List ℕ → DecodeResult NegotiateResponse
decode_negotiate_response bytes offered_dialects = do
  header ← success_response negotiate_kind bytes
  dialect ← read_u16_le bytes 68
  reject_if (not (has_dialect offered_dialects dialect)) protocol_unsupported
      "Server selected an SMB dialect that was not offered."
  buffer_offset ← read_u16_le bytes 120
  buffer_length ← read_u16_le bytes 122
  reject_if
      (ltb buffer_offset smb2_header_size
        || (ltb (length bytes) (buffer_offset + buffer_length)
            || ltb (buffer_offset + buffer_length) buffer_offset))
      io_error "SMB2 NEGOTIATE response security buffer is out of bounds."
  security_mode ← read_u16_le bytes 66
  negotiate_context_count ← read_u16_le bytes 70
  capabilities ← read_u32_le bytes 88
  max_transact_size ← read_u32_le bytes 92
  max_read_size ← read_u32_le bytes 96
  max_write_size ← read_u32_le bytes 100
  system_time ← read_u64_le bytes 104
  server_start_time ← read_u64_le bytes 112
  negotiate_context_offset ← read_u32_le bytes 124
  server_guid ← slice bytes 72 88
  security_buffer ← slice bytes buffer_offset (buffer_offset + buffer_length)
  success (record {
    security_mode = security_mode;
    dialect = dialect;
    negotiate_context_count = negotiate_context_count;
    server_guid = server_guid;
    capabilities = capabilities;
    max_transact_size = max_transact_size;
    max_read_size = max_read_size;
    max_write_size = max_write_size;
    system_time = system_time;
    server_start_time = server_start_time;
    security_buffer = security_buffer;
    negotiate_context_offset = negotiate_context_offset;
  })

unfoldable pub build_session_setup_request : SessionSetupRequestOptions → ℕ → ℕ → Built
build_session_setup_request options message_id session_id =
    throw_if (ltb 0xffff (length options.security_buffer))
      "SMB2 SESSION_SETUP security buffer is too large."
      (built (
        encode_smb2_sync_header (request Command.session_setup message_id 0 session_id)
        ++ (u16_le 25
            ++ u8 options.flags
            ++ u8 (security_mode_for_policy options.signing)
            ++ u32_le options.capabilities
            ++ u32_le 0
            ++ u16_le (smb2_header_size + 24)
            ++ u16_le (length options.security_buffer)
            ++ u64_le options.previous_session_id
            ++ options.security_buffer)))

abbrev pub session_setup_kind : ResponseKind
session_setup_kind = record {
  command = Command.session_setup;
  article = "a";
  name = "SESSION_SETUP";
  fixed_size = 8;
  structure_size = 9;
}

-- STATUS_MORE_PROCESSING_REQUIRED is accepted as well.
unfoldable pub decode_session_setup_response : List ℕ → DecodeResult SessionSetupResponse
decode_session_setup_response bytes = do
  header ← response_header session_setup_kind bytes
  require_status
      (header.status == status_success || header.status == status_more_processing_required)
      header.status session_setup_kind
  fixed_response session_setup_kind bytes
  buffer_offset ← read_u16_le bytes 68
  buffer_length ← read_u16_le bytes 70
  reject_if (out_of_bounds buffer_offset buffer_length bytes) io_error
      "SMB2 SESSION_SETUP response security buffer is out of bounds."
  session_flags ← read_u16_le bytes 66
  security_buffer ← copied buffer_offset buffer_length bytes
  success (record {
    status = header.status;
    session_id = header.session_id;
    session_flags = session_flags;
    security_buffer = security_buffer;
    more_processing_required = header.status == status_more_processing_required;
    guest_session = not (bit_and session_flags 1 == 0);
    null_session = not (bit_and session_flags 2 == 0);
    encrypt_data = not (bit_and session_flags 4 == 0);
  })
