-- ===== src/Protocol/Tree/Safety.antt =====
-- The decoders of Tree on any message.
use smb_browser.Base.{ℕ, ◌≡◌, refl, bit_and, not, ◌||◌, ◌==◌, List, arith}
use smb_browser.Protocol.Header.Accepts.{success_response_in}
use smb_browser.Protocol.Header.Responses.{IsSuccess, Ensures-success}
use smb_browser.Protocol.Tree.{TreeConnectResponse, tree_connect_kind, decode_tree_connect_response}
use smb_browser.Wire.{success, ◌>>=◌}
use smb_browser.Wire.Reads.{Ensures, byte_of, u32_of, byte_at_in, read_u32_le_in}

abbrev pub tree_connect_response_of : List ℕ → TreeConnectResponse
tree_connect_response_of bytes = record {
  share_type = byte_of bytes 66;
  share_flags = u32_of bytes 68;
  capabilities = u32_of bytes 72;
  maximal_access = u32_of bytes 76;
  is_dfs = not (bit_and (u32_of bytes 68) 1 == 0) || not (bit_and (u32_of bytes 72) 8 == 0);
  is_dfs_root = not (bit_and (u32_of bytes 68) 2 == 0);
  requires_encryption = not (bit_and (u32_of bytes 68) 0x8000 == 0);
}

-- On every buffer, decodeTreeConnectResponse reads inside the buffer. It accepts only a
-- TREE_CONNECT response of the server with STATUS_SUCCESS and a complete fixed part, and it
-- returns the fields at their offsets.
pub decode_tree_connect_response-Ensures :
    (bytes : List ℕ)
    → Ensures
        (λ r. IsSuccess tree_connect_kind bytes × (r ≡ tree_connect_response_of bytes))
        (decode_tree_connect_response bytes)
unfolding decode_tree_connect_response ◌>>=◌
decode_tree_connect_response-Ensures bytes =
    Ensures-success (λ r. IsSuccess tree_connect_kind bytes × (r ≡ tree_connect_response_of bytes))
      tree_connect_kind bytes _ (omega arith)
      λ found.
        rw
          (
            byte_at_in bytes 66 (omega arith),
            read_u32_le_in bytes 68 (omega arith),
            read_u32_le_in bytes 72 (omega arith),
            read_u32_le_in bytes 76 (omega arith),
          )
          (found, refl)

-- decodeTreeConnectResponse succeeds on every TREE_CONNECT response of the server with
-- STATUS_SUCCESS and a complete fixed part, and returns the fields at their offsets.
pub decode_tree_connect_response_in :
    (bytes : List ℕ) (s : IsSuccess tree_connect_kind bytes)
    → decode_tree_connect_response bytes ≡ success (tree_connect_response_of bytes)
unfolding decode_tree_connect_response ◌>>=◌
decode_tree_connect_response_in bytes s =
    let long = s.fixed_part.fixed_size in
    rw
      (
        success_response_in tree_connect_kind bytes s (omega arith),
        byte_at_in bytes 66 (omega arith),
        read_u32_le_in bytes 68 (omega arith),
        read_u32_le_in bytes 72 (omega arith),
        read_u32_le_in bytes 76 (omega arith),
      )
      refl
