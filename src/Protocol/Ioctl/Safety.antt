-- ===== src/Protocol/Ioctl/Safety.antt =====
-- The decoders of Ioctl on any message.
use smb_browser.Base.{List, arith, length, or_false, refl, ℕ, ◌≡◌, ◌≤◌}
use smb_browser.Protocol.Buffers.Safety.{
  IsInside-out_of_bounds, IsInside, buffer_of, copied_in, out_of_bounds-IsInside,
}
use smb_browser.Protocol.Header.Accepts.{success_response_in}
use smb_browser.Protocol.Header.Responses.{Ensures-success, IsSuccess}
use smb_browser.Protocol.Ioctl.{
  IoctlResponse, decode_ioctl_response, decode_srv_copy_chunk_response, ioctl_kind,
}
use smb_browser.Wire.{success, reject_if, ◌>>=◌, ◌>>◌}
use smb_browser.Wire.Reads.{
  Ensures, Ensures-reject_if, Ensures-step, file_id_of, read_file_id_in, read_u32_le_in, u32_of,
}

abbrev pub ioctl_response_of : List ℕ → IoctlResponse
ioctl_response_of bytes = record {
  status = u32_of bytes 8;
  ctl_code = u32_of bytes 68;
  file_id = file_id_of bytes 72;
  input = buffer_of bytes (u32_of bytes 88) (u32_of bytes 92);
  output = buffer_of bytes (u32_of bytes 96) (u32_of bytes 100);
  flags = u32_of bytes 104;
}

-- A successful IOCTL response of the server whose two buffers lie in the message.
pub record IsIoctl (bytes : List ℕ) : Type 0 where
  pub accepted : IsSuccess ioctl_kind bytes
  pub input_inside : IsInside (u32_of bytes 88) (u32_of bytes 92) bytes
  pub output_inside : IsInside (u32_of bytes 96) (u32_of bytes 100) bytes

-- On every buffer, decodeIoctlResponse reads inside the buffer. It accepts only an IOCTL
-- response of the server with STATUS_SUCCESS whose input and output buffers, where they are not
-- empty, lie in the message behind the header, and it returns these buffers and the fields at
-- their offsets.
pub decode_ioctl_response-Ensures :
    (bytes : List ℕ)
    → Ensures (λ r. IsIoctl bytes × (r ≡ ioctl_response_of bytes)) (decode_ioctl_response bytes)
unfolding decode_ioctl_response
decode_ioctl_response-Ensures bytes = Ensures-success Q ioctl_kind bytes _ (omega arith) λ found.
    Ensures-step Q _ (read_u32_le_in bytes 88 (omega arith)) (
      Ensures-step Q _ (read_u32_le_in bytes 92 (omega arith)) (
        Ensures-step Q _ (read_u32_le_in bytes 96 (omega arith)) (
          Ensures-step Q _ (read_u32_le_in bytes 100 (omega arith)) (
            Ensures-reject_if Q _ _ _ _ λ h.
              let (i, o) = or_false _ _ h in
              let input : IsInside (u32_of bytes 88) (u32_of bytes 92) bytes =
                out_of_bounds-IsInside _ _ bytes i in
              let output : IsInside (u32_of bytes 96) (u32_of bytes 100) bytes =
                out_of_bounds-IsInside _ _ bytes o in
              Ensures-step Q _ (read_u32_le_in bytes 68 (omega arith)) (
                Ensures-step Q _ (read_file_id_in bytes 72 (omega arith)) (
                  Ensures-step Q _ (read_u32_le_in bytes 104 (omega arith)) (
                    Ensures-step Q _ (copied_in _ _ bytes input) (
                      Ensures-step Q _ (copied_in _ _ bytes output) (
                        record { accepted = found; input_inside = input; output_inside = output },
                        refl,
                      )))))))))
  where
    Q : IoctlResponse → Type 0
    Q r = IsIoctl bytes × (r ≡ ioctl_response_of bytes)

-- decodeSrvCopyChunkResponse succeeds on every buffer of at least 12 bytes and returns the
-- three numbers that stand at bytes 0, 4 and 8.
pub decode_srv_copy_chunk_response_total :
    (bytes : List ℕ)
    → 12 ≤ length bytes
    → decode_srv_copy_chunk_response bytes
      ≡ success (record {
        chunks_written = u32_of bytes 0;
        chunk_bytes_written = u32_of bytes 4;
        total_bytes_written = u32_of bytes 8;
      })
unfolding decode_srv_copy_chunk_response ◌>>=◌ ◌>>◌ reject_if
decode_srv_copy_chunk_response_total bytes h =
    ground (arith, read_u32_le_in bytes 0, read_u32_le_in bytes 4, read_u32_le_in bytes 8)

-- decodeIoctlResponse succeeds on every IOCTL response of the server with STATUS_SUCCESS whose
-- fixed part is complete and whose input and output buffers, where they are not empty, lie in
-- the message behind the header, and returns these buffers and the fields at their offsets.
pub decode_ioctl_response_in :
    (bytes : List ℕ)
    → IsIoctl bytes
    → decode_ioctl_response bytes ≡ success (ioctl_response_of bytes)
unfolding decode_ioctl_response ◌>>=◌ ◌>>◌ reject_if
decode_ioctl_response_in bytes s =
    let long = s.accepted.fixed_part.fixed_size in
    rw
      (
        success_response_in ioctl_kind bytes s.accepted (omega arith),
        read_u32_le_in bytes 88 (omega arith),
        read_u32_le_in bytes 92 (omega arith),
        read_u32_le_in bytes 96 (omega arith),
        read_u32_le_in bytes 100 (omega arith),
        IsInside-out_of_bounds (u32_of bytes 88) (u32_of bytes 92) bytes s.input_inside,
        IsInside-out_of_bounds (u32_of bytes 96) (u32_of bytes 100) bytes s.output_inside,
        read_u32_le_in bytes 68 (omega arith),
        read_file_id_in bytes 72 (omega arith),
        read_u32_le_in bytes 104 (omega arith),
        copied_in (u32_of bytes 88) (u32_of bytes 92) bytes s.input_inside,
        copied_in (u32_of bytes 96) (u32_of bytes 100) bytes s.output_inside,
      )
      refl
