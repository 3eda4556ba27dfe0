-- ===== src/Protocol/Ioctl.antt =====
-- IOCTL of Protocol.cpp, with the server-side copy and the symbolic link buffer that it carries.
pub mod Safety
use smb_browser.Base.{
  Bool, List, [], if◌then◌else◌, is_empty, length, ltb, take, ℕ, ◌++◌, ◌+◌, ◌||◌, ◌∷◌,
}
use smb_browser.Protocol.Buffers.{copied, out_of_bounds}
use smb_browser.Protocol.Header.{
  ResponseKind, encode_smb2_sync_header, request, smb2_header_size, success_response,
}
use smb_browser.Protocol.Utf16.{encode_utf16_le}
use smb_browser.Wire.{
  Built, DecodeResult, FileId, built, file_id_le, io_error, read_file_id, read_u32_le, reject_if,
  success, throw_if, u16_le, u32_le, u64_le, u8, with_built, ◌>>=◌, ◌>>◌,
}
use smb_browser.Protocol.Command

pub record IoctlRequestOptions : Type 0 where
  pub ctl_code : ℕ
  pub file_id : FileId
  pub input : List ℕ
  pub max_input_response : ℕ
  pub max_output_response : ℕ
  pub flags : ℕ

pub record IoctlResponse : Type 0 where
  pub status : ℕ
  pub ctl_code : ℕ
  pub file_id : FileId
  pub input : List ℕ
  pub output : List ℕ
  pub flags : ℕ

pub record CopyChunk : Type 0 where
  pub source_offset : ℕ
  pub target_offset : ℕ
  pub size : ℕ

pub record CopyChunkResponse : Type 0 where
  pub chunks_written : ℕ
  pub chunk_bytes_written : ℕ
  pub total_bytes_written : ℕ

unfoldable pub build_ioctl_request : IoctlRequestOptions → ℕ → ℕ → ℕ → Built
build_ioctl_request options message_id tree_id session_id =
    throw_if (ltb 0xffffffff (length options.input)) "SMB2 IOCTL input buffer is too large." (
      built (
        encode_smb2_sync_header (request Command.ioctl message_id tree_id session_id)
        ++ (u16_le 57
            ++ u16_le 0
            ++ u32_le options.ctl_code
            ++ file_id_le options.file_id
            ++ u32_le (if is_empty options.input then 0 else smb2_header_size + 56)
            ++ u32_le (length options.input)
            ++ u32_le options.max_input_response
            ++ u32_le 0
            ++ u32_le 0
            ++ u32_le options.max_output_response
            ++ u32_le options.flags
            ++ u32_le 0
            ++ options.input
            ++ (if is_empty options.input then u8 0 else []))))

abbrev pub ioctl_kind : ResponseKind
ioctl_kind = record {
  command = Command.ioctl;
  article = "an";
  name = "IOCTL";
  fixed_size = 48;
  structure_size = 49;
}

unfoldable pub decode_ioctl_response : List ℕ → DecodeResult IoctlResponse
decode_ioctl_response bytes = do
  header ← success_response ioctl_kind bytes
  input_offset ← read_u32_le bytes 88
  input_count ← read_u32_le bytes 92
  output_offset ← read_u32_le bytes 96
  output_count ← read_u32_le bytes 100
  reject_if
      (out_of_bounds input_offset input_count bytes
        || out_of_bounds output_offset output_count bytes)
      io_error "SMB2 IOCTL response buffer is out of bounds."
  ctl_code ← read_u32_le bytes 68
  file_id ← read_file_id bytes 72
  flags ← read_u32_le bytes 104
  input ← copied input_offset input_count bytes
  output ← copied output_offset output_count bytes
  success (record {
    status = header.status;
    ctl_code = ctl_code;
    file_id = file_id;
    input = input;
    output = output;
    flags = flags;
  })

chunk_bytes : CopyChunk → List ℕ
chunk_bytes c = u64_le c.source_offset ++ u64_le c.target_offset ++ u32_le c.size ++ u32_le 0

chunks_bytes : List CopyChunk → List ℕ
unfolding chunk_bytes
chunks_bytes [] = []
chunks_bytes (c ∷ cs) = chunk_bytes c ++ chunks_bytes cs

unfoldable pub build_srv_copy_chunk_request : List ℕ → List CopyChunk → Built
unfolding chunks_bytes
build_srv_copy_chunk_request resume_key chunks =
    throw_if (ltb (length resume_key) 24) "SRV_COPYCHUNK requires a 24-byte resume key." (
      throw_if (ltb 0xffffffff (length chunks)) "Too many SRV_COPYCHUNK chunks."
        (built (take 24 resume_key ++ u32_le (length chunks) ++ u32_le 0 ++ chunks_bytes chunks)))

unfoldable pub decode_srv_copy_chunk_response : List ℕ → DecodeResult CopyChunkResponse
decode_srv_copy_chunk_response bytes = do
  reject_if (ltb (length bytes) 12) io_error
      "SRV_COPYCHUNK response buffer is shorter than fixed response."
  chunks_written ← read_u32_le bytes 0
  chunk_bytes_written ← read_u32_le bytes 4
  total_bytes_written ← read_u32_le bytes 8
  success (record {
    chunks_written = chunks_written;
    chunk_bytes_written = chunk_bytes_written;
    total_bytes_written = total_bytes_written;
  })

-- The names in UTF-8; an empty print name stands for the substitute name.
unfoldable pub build_symbolic_link_reparse_buffer : List ℕ → List ℕ → Bool → Built
build_symbolic_link_reparse_buffer substitute_name print_name relative =
    throw_if (is_empty substitute_name) "SMB2 symlink substitute name is empty." (
      with_built (encode_utf16_le substitute_name) λ substitute.
        with_built (encode_utf16_le (if is_empty print_name then substitute_name else print_name))
          λ print.
            throw_if
              (ltb 0xffff (length substitute)
                || (ltb 0xffff (length print)
                    || ltb 0xffff (length substitute + length print + 12)))
              "SMB2 symlink reparse buffer is too large."
              (built (
                u32_le 0xa000000c
                ++ u16_le (12 + length substitute + length print)
                ++ u16_le 0
                ++ u16_le 0
                ++ u16_le (length substitute)
                ++ u16_le (length substitute)
                ++ u16_le (length print)
                ++ u32_le (if relative then 1 else 0)
                ++ substitute
                ++ print)))
