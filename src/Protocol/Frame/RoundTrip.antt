-- ===== src/Protocol/Frame/RoundTrip.antt =====
-- encodeDirectTcpFrame and decodeDirectTcpPayload of Protocol.cpp together.
use smb_browser.Base.{
  List, ap, arith, length, length-append, refl, take, take_append, ℕ, ◌%◌, ◌*◌, ◌++◌, ◌+◌, ◌-◌, ◌/◌,
  ◌<◌, ◌∙◌, ◌∷◌, ◌≡◌,
}
use smb_browser.Protocol.Frame.{
  decode_direct_tcp_payload, decode_direct_tcp_payload_length, encode_direct_tcp_frame,
}
use smb_browser.Wire.{
  built, byte_at, failed, io_error, reject_if, slice, success, throw_if, ◌>>=◌, ◌>>◌,
}
use smb_browser.Wire.Reads.{slice_in}

abbrev pub framed : List ℕ → List ℕ
framed message =
    let size = length message in 0 ∷ size / 65536 % 256 ∷ size / 256 % 256 ∷ size % 256 ∷ message

size_joined : (n : ℕ) → n < 0x1000000 → n / 65536 % 256 * 65536 + n / 256 % 256 * 256 + n % 256 ≡ n
size_joined n h = omega arith

-- The length that stands in a frame's header, whatever of the message follows.
frame_size :
    (message tail : List ℕ)
    → length message < 0x1000000
    → decode_direct_tcp_payload_length (
        0 ∷ length message / 65536 % 256 ∷ length message / 256 % 256 ∷ length message % 256 ∷ tail)
      ≡ success (length message)
unfolding decode_direct_tcp_payload_length ◌>>=◌ ◌>>◌ reject_if byte_at
frame_size message tail h = ground (arith, size_joined (length message) h)

-- A message of less than 2 ^ 24 bytes is framed by encodeDirectTcpFrame without an exception,
-- and decodeDirectTcpPayload gives the message back from the frame, whatever bytes follow the
-- frame in the buffer.
pub decode_direct_tcp_payload-encode :
    (message rest : List ℕ)
    → length message < 0x1000000
    → (encode_direct_tcp_frame message ≡ built (framed message))
      × (decode_direct_tcp_payload (framed message ++ rest) ≡ success message)
unfolding encode_direct_tcp_frame decode_direct_tcp_payload throw_if ◌>>=◌ ◌>>◌ reject_if
decode_direct_tcp_payload-encode message rest h = (
  ground arith,
  rw (frame_size message (message ++ rest) h)
      (ground (arith, length-append message rest, slice_framed)),
)
  where
    slice_framed : slice (framed message ++ rest) 4 (4 + length message) ≡ success message
    slice_framed =
        slice_in (framed message ++ rest) 4 (4 + length message) (omega arith)
          (omega (arith, length-append message rest))
        ∙ ap (λ (n : ℕ). success (take n (message ++ rest))) {x = 4 + length message - 4}
            {y = length message} (omega arith)
        ∙ ap success (take_append message rest (length message) refl)

-- A frame of a message of less than 2 ^ 24 bytes from which bytes at the end are missing,
-- behind its four header bytes, is refused by decodeDirectTcpPayload as an I/O error.
pub decode_direct_tcp_payload_cut :
    (front : List ℕ) (x : ℕ) (back : List ℕ)
    → length (front ++ (x ∷ back)) < 0x1000000
    → decode_direct_tcp_payload (take 4 (framed (front ++ (x ∷ back))) ++ front)
      ≡ failed io_error "SMB2 Direct TCP frame is shorter than declared payload."
unfolding decode_direct_tcp_payload ◌>>=◌ ◌>>◌ reject_if
decode_direct_tcp_payload_cut front x back h =
    rw (frame_size (front ++ (x ∷ back)) front h) (ground (arith, length-append front (x ∷ back)))
