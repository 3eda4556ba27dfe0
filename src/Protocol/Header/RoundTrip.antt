-- ===== src/Protocol/Header/RoundTrip.antt =====
-- encodeSmb2SyncHeader and decodeSmb2SyncHeader of Protocol.cpp together.
use smb_browser.Wire.Words.{u16_joined, u32_joined, u64_joined}
use smb_browser.Base.{length-append, take_append, ℕ, ◌^◌, ◌<◌, ◌≡◌, List, ◌++◌, length, arith}
use smb_browser.Wire.{
  success, byte_at, ◌>>=◌, ◌>>◌, reject_if, read_u16_le, read_u32_le, read_u64_le, slice,
}
use smb_browser.Protocol.Header.{Smb2SyncHeader, encode_smb2_sync_header, decode_smb2_sync_header}

-- Each field fits its C++ type.
pub record IsHeader (h : Smb2SyncHeader) : Type 0 where
  pub credit_charge : h.credit_charge < 2 ^ 16
  pub status : h.status < 2 ^ 32
  pub command : h.command < 2 ^ 16
  pub credit_request : h.credit_request < 2 ^ 16
  pub flags : h.flags < 2 ^ 32
  pub next_command : h.next_command < 2 ^ 32
  pub message_id : h.message_id < 2 ^ 64
  pub tree_id : h.tree_id < 2 ^ 32
  pub session_id : h.session_id < 2 ^ 64
  pub signature : length h.signature ≡ 16

-- For every header whose fields fit their C++ types, decodeSmb2SyncHeader gives the header back
-- from what encodeSmb2SyncHeader wrote, whatever bytes follow it.
pub decode_smb2_sync_header-encode :
    (h : Smb2SyncHeader) (rest : List ℕ)
    → IsHeader h
    → decode_smb2_sync_header (encode_smb2_sync_header h ++ rest) ≡ success h
unfolding decode_smb2_sync_header encode_smb2_sync_header ◌>>=◌ ◌>>◌ reject_if byte_at read_u16_le
    read_u32_le read_u64_le slice
decode_smb2_sync_header-encode h rest v = ground (
  arith,
  length-append h.signature rest,
  take_append h.signature rest 16 v.signature,
  u16_joined h.credit_charge,
  u32_joined h.status,
  u16_joined h.command,
  u16_joined h.credit_request,
  u32_joined h.flags,
  u32_joined h.next_command,
  u64_joined h.message_id,
  u32_joined h.tree_id,
  u64_joined h.session_id,
)
