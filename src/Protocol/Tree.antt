-- ===== src/Protocol/Tree.antt =====
-- TREE_CONNECT, TREE_DISCONNECT and LOGOFF of Protocol.cpp.
pub mod Safety
use smb_browser.Base.{
  is_empty, ℕ, ◌+◌, bit_and, Bool, not, ◌||◌, ◌==◌, ltb, List, [], ◌∷◌, ◌++◌, length, String,
}
use smb_browser.Protocol.Header.{
  ResponseKind, encode_smb2_sync_header, request, success_response, smb2_header_size,
}
use smb_browser.Protocol.Utf16.{encode_utf16_le}
use smb_browser.Wire.{
  ◌>>◌, DecodeResult, success, ◌>>=◌, Built, built, invalid, throw_if, with_built, u16_le, byte_at,
  read_u32_le,
}
use smb_browser.Protocol.Command

pub record TreeConnectRequestOptions : Type 0 where
  pub server : List ℕ
  pub share : List ℕ
  pub flags : ℕ

-- `shareType` is a cast of any byte.
pub record TreeConnectResponse : Type 0 where
  pub share_type : ℕ
  pub share_flags : ℕ
  pub capabilities : ℕ
  pub maximal_access : ℕ
  pub is_dfs : Bool
  pub is_dfs_root : Bool
  pub requires_encryption : Bool

-- TreeDisconnectResponse and LogoffResponse.
pub record StatusResponse : Type 0 where
  pub status : ℕ

abbrev pub backslash : ℕ
backslash = 0x5c

-- uncPath, which throws if a part is missing.
unfoldable pub unc_path : TreeConnectRequestOptions → Built
unfolding throw_if
unc_path options =
    throw_if (is_empty options.server || is_empty options.share)
      "SMB tree connect requires server and share."
      (built
        ((backslash ∷ backslash ∷ []) ++ (options.server ++ (backslash ∷ []) ++ options.share)))

unfoldable pub build_tree_connect_request : TreeConnectRequestOptions → ℕ → ℕ → Built
build_tree_connect_request options message_id session_id = with_built (unc_path options) λ unc.
    with_built (encode_utf16_le unc) λ path.
      throw_if (ltb 0xffff (length path)) "SMB2 TREE_CONNECT path is too large." (
        built (
          encode_smb2_sync_header (request Command.tree_connect message_id 0 session_id)
          ++ (u16_le 9
              ++ u16_le options.flags
              ++ u16_le (smb2_header_size + 8)
              ++ u16_le (length path)
              ++ path)))

abbrev pub tree_connect_kind : ResponseKind
tree_connect_kind = record {
  command = Command.tree_connect;
  article = "a";
  name = "TREE_CONNECT";
  fixed_size = 16;
  structure_size = 16;
}

unfoldable pub decode_tree_connect_response : List ℕ → DecodeResult TreeConnectResponse
decode_tree_connect_response bytes = do
  header ← success_response tree_connect_kind bytes
  share_type ← byte_at bytes 66
  share_flags ← read_u32_le bytes 68
  capabilities ← read_u32_le bytes 72
  maximal_access ← read_u32_le bytes 76
  success (record {
    share_type = share_type;
    share_flags = share_flags;
    capabilities = capabilities;
    maximal_access = maximal_access;
    is_dfs = not (bit_and share_flags 1 == 0) || not (bit_and capabilities 8 == 0);
    is_dfs_root = not (bit_and share_flags 2 == 0);
    requires_encryption = not (bit_and share_flags 0x8000 == 0);
  })

unfoldable pub build_tree_disconnect_request : ℕ → ℕ → ℕ → Built
build_tree_disconnect_request message_id tree_id session_id = built (
    encode_smb2_sync_header (request Command.tree_disconnect message_id tree_id session_id)
    ++ (u16_le 4 ++ u16_le 0))

abbrev pub tree_disconnect_kind : ResponseKind
tree_disconnect_kind = record {
  command = Command.tree_disconnect;
  article = "a";
  name = "TREE_DISCONNECT";
  fixed_size = 4;
  structure_size = 4;
}

unfoldable pub decode_tree_disconnect_response : List ℕ → DecodeResult StatusResponse
decode_tree_disconnect_response bytes = do
  header ← success_response tree_disconnect_kind bytes
  success (record { status = header.status })

unfoldable pub build_logoff_request : ℕ → ℕ → Built
build_logoff_request message_id session_id = built (
    encode_smb2_sync_header (request Command.logoff message_id 0 session_id)
    ++ (u16_le 4 ++ u16_le 0))

abbrev pub logoff_kind : ResponseKind
logoff_kind = record {
  command = Command.logoff;
  article = "a";
  name = "LOGOFF";
  fixed_size = 4;
  structure_size = 4;
}

unfoldable pub decode_logoff_response : List ℕ → DecodeResult StatusResponse
decode_logoff_response bytes = do
  header ← success_response logoff_kind bytes
  success (record { status = header.status })
