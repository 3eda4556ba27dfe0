-- ===== src/Protocol/Transfer/Safety.antt =====
-- The decoders of Transfer on any message.
use smb_browser.Base.{◌%◌, List, arith, refl, ℕ, ◌≡◌}
use smb_browser.Protocol.Buffers.Safety.{announced_in, IsInside, announced-Ensures, buffer_of}
use smb_browser.Protocol.Header.Accepts.{success_response_in}
use smb_browser.Protocol.Header.Responses.{Ensures-success, IsSuccess}
use smb_browser.Protocol.Transfer.{
  ReadResponse, decode_read_response, read_kind, WriteResponse, decode_write_response, write_kind,
}
use smb_browser.Wire.{success, ◌>>=◌}
use smb_browser.Wire.Reads.{
  Ensures-bind, Ensures-step, byte_at_in, byte_of, Ensures, read_u16_le_in, read_u32_le_in, u16_of,
  u32_of,
}

abbrev pub write_response_of : List ℕ → WriteResponse
write_response_of bytes = record {
  status = u32_of bytes 8;
  count = u32_of bytes 68;
  remaining = u32_of bytes 72;
  write_channel_info_offset = u16_of bytes 76;
  write_channel_info_length = u16_of bytes 78;
}

-- On every buffer, decodeWriteResponse reads inside the buffer. It accepts only a WRITE
-- response of the server with STATUS_SUCCESS and a complete fixed part, and it returns the
-- fields at their offsets.
pub decode_write_response-Ensures :
    (bytes : List ℕ)
    → Ensures
        (λ r. IsSuccess write_kind bytes × (r ≡ write_response_of bytes))
        (decode_write_response bytes)
unfolding decode_write_response ◌>>=◌
decode_write_response-Ensures bytes =
    Ensures-success (λ r. IsSuccess write_kind bytes × (r ≡ write_response_of bytes)) write_kind
      bytes _ (omega arith)
      λ found.
        rw
          (
            read_u32_le_in bytes 68 (omega arith),
            read_u32_le_in bytes 72 (omega arith),
            read_u16_le_in bytes 76 (omega arith),
            read_u16_le_in bytes 78 (omega arith),
          )
          (found, refl)

abbrev pub read_response_of : List ℕ → ReadResponse
read_response_of bytes = record {
  status = u32_of bytes 8;
  data_offset = byte_of bytes 66;
  data_remaining = u32_of bytes 72;
  flags = u32_of bytes 76 % 256;
  payload = buffer_of bytes (byte_of bytes 66) (u32_of bytes 68);
}

-- A successful READ response of the server whose data lies in the message.
pub record IsRead (bytes : List ℕ) : Type 0 where
  pub accepted : IsSuccess read_kind bytes
  pub inside : IsInside (byte_of bytes 66) (u32_of bytes 68) bytes

-- On every buffer, decodeReadResponse reads inside the buffer. It accepts only a READ response
-- of the server with STATUS_SUCCESS whose data, if there is any, lies in the message behind the
-- header, and it returns exactly that data and the fields at their offsets.
pub decode_read_response-Ensures :
    (bytes : List ℕ)
    → Ensures (λ r. IsRead bytes × (r ≡ read_response_of bytes)) (decode_read_response bytes)
unfolding decode_read_response
decode_read_response-Ensures bytes = Ensures-success Q read_kind bytes _ (omega arith) λ found.
    Ensures-step Q _ (byte_at_in bytes 66 (omega arith)) (
      Ensures-step Q _ (read_u32_le_in bytes 68 (omega arith)) (
        Ensures-bind
          (λ b.
            IsInside (byte_of bytes 66) (u32_of bytes 68) bytes
            × (b ≡ buffer_of bytes (byte_of bytes 66) (u32_of bytes 68)))
          Q _ _ (announced-Ensures (byte_of bytes 66) (u32_of bytes 68) _ bytes)
          λ b (inside, same). Ensures-step Q _ (read_u32_le_in bytes 72 (omega arith)) (
            Ensures-step Q _ (read_u32_le_in bytes 76 (omega arith))
              (record { accepted = found; inside = inside }, rw same))))
  where
    Q : ReadResponse → Type 0
    Q r = IsRead bytes × (r ≡ read_response_of bytes)

-- decodeWriteResponse succeeds on every WRITE response of the server with STATUS_SUCCESS and a
-- complete fixed part, and returns the fields at their offsets.
pub decode_write_response_in :
    (bytes : List ℕ) (s : IsSuccess write_kind bytes)
    → decode_write_response bytes ≡ success (write_response_of bytes)
unfolding decode_write_response ◌>>=◌
decode_write_response_in bytes s =
    let long = s.fixed_part.fixed_size in
    rw
      (
        success_response_in write_kind bytes s (omega arith),
        read_u32_le_in bytes 68 (omega arith),
        read_u32_le_in bytes 72 (omega arith),
        read_u16_le_in bytes 76 (omega arith),
        read_u16_le_in bytes 78 (omega arith),
      )
      refl

-- decodeReadResponse succeeds on every READ response of the server with STATUS_SUCCESS whose
-- fixed part is complete and whose data, if there is any, lies in the message behind the
-- header, and returns the data and the fields at their offsets.
pub decode_read_response_in :
    (bytes : List ℕ) → IsRead bytes → decode_read_response bytes ≡ success (read_response_of bytes)
unfolding decode_read_response ◌>>=◌
decode_read_response_in bytes s =
    let long = s.accepted.fixed_part.fixed_size in
    rw
      (
        success_response_in read_kind bytes s.accepted (omega arith),
        byte_at_in bytes 66 (omega arith),
        read_u32_le_in bytes 68 (omega arith),
        announced_in (byte_of bytes 66) (u32_of bytes 68) _ bytes s.inside,
        read_u32_le_in bytes 72 (omega arith),
        read_u32_le_in bytes 76 (omega arith),
      )
      refl
