-- ===== src/Protocol/Header/Responses.antt =====
-- The checks with which the response decoders begin, on any message.
use smb_browser.Base.{
  ap, sym, ◌∙◌, Bool, true, false, refl, ==→eq, ℕ, ◌+◌, ◌≤◌, ◌≡◌, ◌≢◌, List, length, bit_and, arith,
  take, drop,
}
use smb_browser.Wire.{DecodeResult, ◌>>=◌, ◌>>◌, reject_if}
use smb_browser.Wire.Reads.{
  Ensures, Ensures-bind, Ensures-step, Ensures-then, Ensures-reject_if, u16_of, u32_of, u64_of,
  read_u16_le_in, read_u32_le_in, read_u64_le_in, slice_in,
}
use smb_browser.Protocol.Status.{status_success}
use smb_browser.Protocol.Header.{
  Smb2SyncHeader, decode_smb2_sync_header, ResponseKind, response_header, fixed_response,
  success_response, flag_server_to_redir, require_status, smb2_protocol_id, smb2_header_size,
}

-- The header that stands in a buffer.
abbrev pub header_of : List ℕ → Smb2SyncHeader
header_of bytes = record {
  credit_charge = u16_of bytes 6;
  status = u32_of bytes 8;
  command = u16_of bytes 12;
  credit_request = u16_of bytes 14;
  flags = u32_of bytes 16;
  next_command = u32_of bytes 20;
  message_id = u64_of bytes 24;
  tree_id = u32_of bytes 36;
  session_id = u64_of bytes 40;
  signature = take 16 (drop 48 bytes);
}

-- A header that is decoded is the one in the buffer, behind the protocol id and the structure size.
pub record HasHeader (bytes : List ℕ) (h : Smb2SyncHeader) : Type 0 where
  pub size : 64 ≤ length bytes
  pub protocol_id : u32_of bytes 0 ≡ smb2_protocol_id
  pub structure_size : u16_of bytes 4 ≡ smb2_header_size
  pub header : h ≡ header_of bytes

-- What the checks of a response establish of its bytes.
pub record IsResponse (kind : ResponseKind) (bytes : List ℕ) : Type 0 where
  pub size : 64 ≤ length bytes
  pub protocol_id : u32_of bytes 0 ≡ smb2_protocol_id
  pub structure_size : u16_of bytes 4 ≡ smb2_header_size
  pub command : u16_of bytes 12 ≡ kind.command
  pub from_server : bit_and (u32_of bytes 16) flag_server_to_redir ≢ 0

pub record HasFixedPart (kind : ResponseKind) (bytes : List ℕ) : Type 0 where
  pub fixed_size : 64 + kind.fixed_size ≤ length bytes
  pub fixed_structure : u16_of bytes 64 ≡ kind.structure_size

-- A response with STATUS_SUCCESS.
pub record IsSuccess (kind : ResponseKind) (bytes : List ℕ) : Type 0 where
  pub response : IsResponse kind bytes
  pub succeeded : u32_of bytes 8 ≡ status_success
  pub fixed_part : HasFixedPart kind bytes

-- The header that a check hands on is the one in the buffer.
abbrev pub WithHeader : (List ℕ → Type 0) → List ℕ → Smb2SyncHeader → Type 0
WithHeader P bytes h = (h ≡ header_of bytes) × P bytes

pub decode_smb2_sync_header-Ensures :
    (bytes : List ℕ) → Ensures (HasHeader bytes) (decode_smb2_sync_header bytes)
unfolding decode_smb2_sync_header ◌>>=◌ ◌>>◌ reject_if
decode_smb2_sync_header-Ensures bytes = ground (
  arith,
  read_u32_le_in bytes 0,
  read_u16_le_in bytes 4,
  read_u16_le_in bytes 6,
  read_u32_le_in bytes 8,
  read_u16_le_in bytes 12,
  read_u16_le_in bytes 14,
  read_u32_le_in bytes 16,
  read_u32_le_in bytes 20,
  read_u64_le_in bytes 24,
  read_u32_le_in bytes 36,
  read_u64_le_in bytes 40,
  slice_in bytes 48 64,
)

pub response_header-Ensures :
    (kind : ResponseKind) (bytes : List ℕ)
    → Ensures (WithHeader (IsResponse kind) bytes) (response_header kind bytes)
unfolding response_header
response_header-Ensures kind bytes =
    Ensures-bind (HasHeader bytes) Q (decode_smb2_sync_header bytes) _
      (decode_smb2_sync_header-Ensures bytes)
      λ h found. Ensures-reject_if Q _ _ _ _ λ same. Ensures-reject_if Q _ _ _ _ λ flagged. (
        found.header,
        record {
          size = found.size;
          protocol_id = found.protocol_id;
          structure_size = found.structure_size;
          command = ground arith;
          from_server = ground arith;
        },
      )
  where
    Q : Smb2SyncHeader → Type 0
    Q = WithHeader (IsResponse kind) bytes

pub fixed_response-Ensures :
    (kind : ResponseKind) (bytes : List ℕ)
    → 2 ≤ kind.fixed_size
    → Ensures (λ _. HasFixedPart kind bytes) (fixed_response kind bytes)
unfolding fixed_response
fixed_response-Ensures kind bytes wide =
    Ensures-reject_if (λ _. HasFixedPart kind bytes) _ _ _ _
      λ long.
        Ensures-step (λ _. HasFixedPart kind bytes) _ (read_u16_le_in bytes 64 (ground arith))
          (Ensures-reject_if (λ _. HasFixedPart kind bytes) _ _ _ _ λ same. ground arith)

pub Ensures-require_status {ℓ} :
    {A : Type ℓ} (Q : A → Type 0) (accepted : Bool) (status : ℕ) (kind : ResponseKind)
    (k : DecodeResult A)
    → (accepted ≡ true → Ensures Q k)
    → Ensures Q (require_status accepted status kind >> k)
unfolding require_status ◌>>=◌ ◌>>◌
Ensures-require_status Q true status kind r k = k refl
Ensures-require_status Q false status kind r k = tt

pub success_response-Ensures :
    (kind : ResponseKind) (bytes : List ℕ)
    → 2 ≤ kind.fixed_size
    → Ensures (WithHeader (IsSuccess kind) bytes) (success_response kind bytes)
unfolding success_response
success_response-Ensures kind bytes wide =
    Ensures-bind (WithHeader (IsResponse kind) bytes) Q (response_header kind bytes) _
      (response_header-Ensures kind bytes)
      λ h (same, found). Ensures-require_status Q _ _ _ _ λ accepted.
        Ensures-then Q (HasFixedPart kind bytes) _ _ (fixed_response-Ensures kind bytes wide)
          λ fixed. (
            same,
            record {
              response = found;
              succeeded = ap (λ (x : Smb2SyncHeader). x.status) (sym same) ∙ ==→eq _ _ accepted;
              fixed_part = fixed;
            },
          )
  where
    Q : Smb2SyncHeader → Type 0
    Q = WithHeader (IsSuccess kind) bytes

-- The rest of a decoder may use the header in the buffer and all that the checks established.
pub Ensures-success {ℓ} :
    {A : Type ℓ} (Q : A → Type 0) (kind : ResponseKind) (bytes : List ℕ)
    (f : Smb2SyncHeader → DecodeResult A)
    → 2 ≤ kind.fixed_size
    → (IsSuccess kind bytes → Ensures Q (f (header_of bytes)))
    → Ensures Q (success_response kind bytes >>= f)
Ensures-success Q kind bytes f wide k =
    Ensures-bind (WithHeader (IsSuccess kind) bytes) Q (success_response kind bytes) f
      (success_response-Ensures kind bytes wide) (λ h (same, found). rw same (k found))
