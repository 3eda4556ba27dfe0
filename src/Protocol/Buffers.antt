-- ===== src/Protocol/Buffers.antt =====
-- The variable part of a response of Protocol.cpp: a buffer that the fixed part announces.
pub mod Safety
use smb_browser.Base.{Bool, List, String, [], if◌then◌else◌, length, ltb, ℕ, ◌&&◌, ◌+◌, ◌||◌}
use smb_browser.Protocol.Header.{smb2_header_size}
use smb_browser.Wire.{DecodeResult, io_error, reject_if, slice, success, ◌>>◌}

-- The tests on a buffer that is announced by its offset and its length, as in decodeReadResponse,
-- decodeQueryInfoResponse, decodeQueryDirectoryResponse and decodeChangeNotifyResponse. The sum is
-- taken in 64 bits, where two 32-bit numbers do not wrap.
unfoldable pub out_of_bounds : ℕ → ℕ → List ℕ → Bool
out_of_bounds offset size bytes =
    let end = offset + size in
    ltb 0 size && (ltb offset smb2_header_size || (ltb (length bytes) end || ltb end offset))

-- The copy, of a length that is not 0.
unfoldable pub copied : ℕ → ℕ → List ℕ → DecodeResult (List ℕ)
copied offset size bytes = if ltb 0 size then slice bytes offset (offset + size) else success []

-- The tests and the copy.
unfoldable pub announced : ℕ → ℕ → String → List ℕ → DecodeResult (List ℕ)
announced offset size message bytes = do
  reject_if (out_of_bounds offset size bytes) io_error message
  copied offset size bytes
