-- ===== src/Protocol/Info/Safety.antt =====
-- The decoders of Info on any message.
use smb_browser.Base.{refl, List, arith, ℕ, ◌≡◌}
use smb_browser.Protocol.Buffers.Safety.{announced_in, IsInside, announced-Ensures, buffer_of}
use smb_browser.Protocol.Header.Accepts.{success_response_in}
use smb_browser.Protocol.Header.Responses.{Ensures-success, IsSuccess}
use smb_browser.Protocol.Info.{QueryInfoResponse, decode_query_info_response, query_info_kind}
use smb_browser.Wire.{success, ◌>>=◌}
use smb_browser.Wire.Reads.{
  Ensures, Ensures-bind, Ensures-step, read_u16_le_in, read_u32_le_in, u16_of, u32_of,
}

abbrev pub query_info_response_of : List ℕ → QueryInfoResponse
query_info_response_of bytes = record {
  status = u32_of bytes 8;
  output_buffer_offset = u16_of bytes 66;
  buffer = buffer_of bytes (u16_of bytes 66) (u32_of bytes 68);
}

-- A successful QUERY_INFO response of the server whose output lies in the message.
pub record IsQueryInfo (bytes : List ℕ) : Type 0 where
  pub accepted : IsSuccess query_info_kind bytes
  pub inside : IsInside (u16_of bytes 66) (u32_of bytes 68) bytes

-- On every buffer, decodeQueryInfoResponse reads inside the buffer. It accepts only a
-- QUERY_INFO response of the server with STATUS_SUCCESS whose output, if there is any, lies in
-- the message behind the header, and it returns that output.
pub decode_query_info_response-Ensures :
    (bytes : List ℕ)
    → Ensures
        (λ r. IsQueryInfo bytes × (r ≡ query_info_response_of bytes))
        (decode_query_info_response bytes)
unfolding decode_query_info_response
decode_query_info_response-Ensures bytes =
    Ensures-success Q query_info_kind bytes _ (omega arith) λ found.
      Ensures-step Q _ (read_u16_le_in bytes 66 (omega arith)) (
        Ensures-step Q _ (read_u32_le_in bytes 68 (omega arith)) (
          Ensures-bind
            (λ b.
              IsInside (u16_of bytes 66) (u32_of bytes 68) bytes
              × (b ≡ buffer_of bytes (u16_of bytes 66) (u32_of bytes 68)))
            Q _ _ (announced-Ensures (u16_of bytes 66) (u32_of bytes 68) _ bytes)
            λ b (inside, same). (record { accepted = found; inside = inside }, rw same)))
  where
    Q : QueryInfoResponse → Type 0
    Q r = IsQueryInfo bytes × (r ≡ query_info_response_of bytes)

-- decodeQueryInfoResponse succeeds on every QUERY_INFO response of the server with
-- STATUS_SUCCESS whose fixed part is complete and whose output, if there is any, lies in the
-- message behind the header, and returns that output.
pub decode_query_info_response_in :
    (bytes : List ℕ)
    → IsQueryInfo bytes
    → decode_query_info_response bytes ≡ success (query_info_response_of bytes)
unfolding decode_query_info_response ◌>>=◌
decode_query_info_response_in bytes s =
    let long = s.accepted.fixed_part.fixed_size in
    rw
      (
        success_response_in query_info_kind bytes s.accepted (omega arith),
        read_u16_le_in bytes 66 (omega arith),
        read_u32_le_in bytes 68 (omega arith),
        announced_in (u16_of bytes 66) (u32_of bytes 68) _ bytes s.inside,
      )
      refl
