-- ===== src/Protocol/Frame.antt =====
-- The Direct TCP frame of Protocol.cpp: a zero byte and the length of the message in three bytes,
-- highest first.
pub mod RoundTrip
use smb_browser.Base.{List, length, ltb, not, ℕ, ◌%◌, ◌*◌, ◌+◌, ◌/◌, ◌==◌, ◌∷◌}
use smb_browser.Wire.{
  Built, DecodeResult, built, byte_at, io_error, protocol_unsupported, reject_if, slice, success,
  throw_if, ◌>>=◌, ◌>>◌,
}

abbrev pub max_direct_tcp_payload_length : ℕ
max_direct_tcp_payload_length = 0x00ffffff

unfoldable pub encode_direct_tcp_frame : List ℕ → Built
encode_direct_tcp_frame message =
    let size = length message in
    throw_if (ltb max_direct_tcp_payload_length size) "SMB2 Direct TCP payload is too large."
      (built (0 ∷ size / 65536 % 256 ∷ size / 256 % 256 ∷ size % 256 ∷ message))

unfoldable pub decode_direct_tcp_payload_length : List ℕ → DecodeResult ℕ
decode_direct_tcp_payload_length bytes = do
  reject_if (ltb (length bytes) 4) io_error "SMB2 Direct TCP header buffer is shorter than 4 bytes."
  marker ← byte_at bytes 0
  reject_if (not (marker == 0)) protocol_unsupported "Invalid SMB2 Direct TCP header marker."
  high ← byte_at bytes 1
  middle ← byte_at bytes 2
  low ← byte_at bytes 3
  success (high * 65536 + middle * 256 + low)

unfoldable pub decode_direct_tcp_payload : List ℕ → DecodeResult (List ℕ)
decode_direct_tcp_payload bytes = do
  size ← decode_direct_tcp_payload_length bytes
  reject_if (ltb (length bytes) (4 + size)) io_error
      "SMB2 Direct TCP frame is shorter than declared payload."
  slice bytes 4 (4 + size)
