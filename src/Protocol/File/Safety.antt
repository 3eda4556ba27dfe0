-- ===== src/Protocol/File/Safety.antt =====
-- The decoders of File on any message.
use smb_browser.Base.{List, arith, bit_and, not, refl, ℕ, ◌==◌, ◌||◌, ◌≡◌}
use smb_browser.Protocol.File.{
  CloseResponse, CreateResponse, close_kind, create_kind, decode_close_response,
  decode_create_response,
}
use smb_browser.Protocol.Header.Accepts.{success_response_in}
use smb_browser.Protocol.Header.Responses.{Ensures-success, IsSuccess}
use smb_browser.Wire.{success, ◌>>=◌}
use smb_browser.Wire.Reads.{
  Ensures, byte_at_in, byte_of, file_id_of, read_file_id_in, read_u16_le_in, read_u32_le_in,
  read_u64_le_in, u16_of, u32_of, u64_of,
}

abbrev pub create_response_of : List ℕ → CreateResponse
create_response_of bytes = record {
  oplock_level = byte_of bytes 66;
  flags = byte_of bytes 67;
  create_action = u32_of bytes 68;
  creation_time = u64_of bytes 72;
  last_access_time = u64_of bytes 80;
  last_write_time = u64_of bytes 88;
  change_time = u64_of bytes 96;
  allocation_size = u64_of bytes 104;
  end_of_file = u64_of bytes 112;
  file_attributes = u32_of bytes 120;
  file_id = file_id_of bytes 128;
  is_reparse_point =
      not (bit_and (byte_of bytes 67) 1 == 0) || not (bit_and (u32_of bytes 120) 0x400 == 0);
}

abbrev pub close_response_of : List ℕ → CloseResponse
close_response_of bytes = record {
  status = u32_of bytes 8;
  flags = u16_of bytes 66;
  creation_time = u64_of bytes 72;
  last_access_time = u64_of bytes 80;
  last_write_time = u64_of bytes 88;
  change_time = u64_of bytes 96;
  allocation_size = u64_of bytes 104;
  end_of_file = u64_of bytes 112;
  file_attributes = u32_of bytes 120;
  has_post_query_attributes = not (bit_and (u16_of bytes 66) 1 == 0);
}

-- On every buffer, decodeCreateResponse reads inside the buffer. It accepts only a CREATE
-- response of the server with STATUS_SUCCESS and a complete fixed part, and it returns the
-- fields at their offsets.
pub decode_create_response-Ensures :
    (bytes : List ℕ)
    → Ensures
        (λ r. IsSuccess create_kind bytes × (r ≡ create_response_of bytes))
        (decode_create_response bytes)
unfolding decode_create_response ◌>>=◌
decode_create_response-Ensures bytes =
    Ensures-success (λ r. IsSuccess create_kind bytes × (r ≡ create_response_of bytes)) create_kind
      bytes _ (omega arith)
      λ found.
        rw
          (
            byte_at_in bytes 66 (omega arith),
            byte_at_in bytes 67 (omega arith),
            read_u32_le_in bytes 68 (omega arith),
            read_u64_le_in bytes 72 (omega arith),
            read_u64_le_in bytes 80 (omega arith),
            read_u64_le_in bytes 88 (omega arith),
            read_u64_le_in bytes 96 (omega arith),
            read_u64_le_in bytes 104 (omega arith),
            read_u64_le_in bytes 112 (omega arith),
            read_u32_le_in bytes 120 (omega arith),
            read_file_id_in bytes 128 (omega arith),
          )
          (found, refl)

-- On every buffer, decodeCloseResponse reads inside the buffer. It accepts only a CLOSE
-- response of the server with STATUS_SUCCESS and a complete fixed part, and it returns the
-- fields at their offsets.
pub decode_close_response-Ensures :
    (bytes : List ℕ)
    → Ensures
        (λ r. IsSuccess close_kind bytes × (r ≡ close_response_of bytes))
        (decode_close_response bytes)
unfolding decode_close_response ◌>>=◌
decode_close_response-Ensures bytes =
    Ensures-success (λ r. IsSuccess close_kind bytes × (r ≡ close_response_of bytes)) close_kind
      bytes _ (omega arith)
      λ found.
        rw
          (
            read_u16_le_in bytes 66 (omega arith),
            read_u64_le_in bytes 72 (omega arith),
            read_u64_le_in bytes 80 (omega arith),
            read_u64_le_in bytes 88 (omega arith),
            read_u64_le_in bytes 96 (omega arith),
            read_u64_le_in bytes 104 (omega arith),
            read_u64_le_in bytes 112 (omega arith),
            read_u32_le_in bytes 120 (omega arith),
          )
          (found, refl)

-- decodeCreateResponse succeeds on every CREATE response of the server with STATUS_SUCCESS and
-- a complete fixed part, and returns the fields at their offsets.
pub decode_create_response_in :
    (bytes : List ℕ) (s : IsSuccess create_kind bytes)
    → decode_create_response bytes ≡ success (create_response_of bytes)
unfolding decode_create_response ◌>>=◌
decode_create_response_in bytes s =
    let long = s.fixed_part.fixed_size in
    rw
      (
        success_response_in create_kind bytes s (omega arith),
        byte_at_in bytes 66 (omega arith),
        byte_at_in bytes 67 (omega arith),
        read_u32_le_in bytes 68 (omega arith),
        read_u64_le_in bytes 72 (omega arith),
        read_u64_le_in bytes 80 (omega arith),
        read_u64_le_in bytes 88 (omega arith),
        read_u64_le_in bytes 96 (omega arith),
        read_u64_le_in bytes 104 (omega arith),
        read_u64_le_in bytes 112 (omega arith),
        read_u32_le_in bytes 120 (omega arith),
        read_file_id_in bytes 128 (omega arith),
      )
      refl

-- decodeCloseResponse succeeds on every CLOSE response of the server with STATUS_SUCCESS and a
-- complete fixed part, and returns the fields at their offsets.
pub decode_close_response_in :
    (bytes : List ℕ) (s : IsSuccess close_kind bytes)
    → decode_close_response bytes ≡ success (close_response_of bytes)
unfolding decode_close_response ◌>>=◌
decode_close_response_in bytes s =
    let long = s.fixed_part.fixed_size in
    rw
      (
        success_response_in close_kind bytes s (omega arith),
        read_u16_le_in bytes 66 (omega arith),
        read_u64_le_in bytes 72 (omega arith),
        read_u64_le_in bytes 80 (omega arith),
        read_u64_le_in bytes 88 (omega arith),
        read_u64_le_in bytes 96 (omega arith),
        read_u64_le_in bytes 104 (omega arith),
        read_u64_le_in bytes 112 (omega arith),
        read_u32_le_in bytes 120 (omega arith),
      )
      refl
