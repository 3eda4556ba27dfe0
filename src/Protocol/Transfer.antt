-- ===== src/Protocol/Transfer.antt =====
-- READ and WRITE of Protocol.cpp.
pub mod Safety
pub mod Credits
use smb_browser.Base.{
  length, List, String, [], if◌then◌else◌, is_empty, ltb, max, ℕ, ◌%◌, ◌&&◌, ◌++◌, ◌+◌, ◌-◌, ◌/◌,
  ◌||◌,
}
use smb_browser.Protocol.Buffers.{announced}
use smb_browser.Protocol.Header.{
  ResponseKind, Smb2SyncHeader, encode_smb2_sync_header, request, smb2_header_size,
  success_response,
}
use smb_browser.Wire.{
  Built, DecodeResult, FileId, built, byte_at, file_id_le, io_error, read_u16_le, read_u32_le,
  reject_if, slice, success, throw_if, u16_le, u32_le, u64_le, u8, ◌>>=◌, ◌>>◌,
}
use smb_browser.Protocol.Command

pub record ReadRequestOptions : Type 0 where
  pub file_id : FileId
  pub length : ℕ
  pub offset : ℕ
  pub flags : ℕ
  pub minimum_count : ℕ
  pub channel : ℕ
  pub remaining_bytes : ℕ
  pub channel_info : List ℕ

pub record ReadResponse : Type 0 where
  pub status : ℕ
  pub data_offset : ℕ
  pub data_remaining : ℕ
  pub flags : ℕ
  pub payload : List ℕ

pub record WriteRequestOptions : Type 0 where
  pub file_id : FileId
  pub payload : List ℕ
  pub offset : ℕ
  pub channel : ℕ
  pub remaining_bytes : ℕ
  pub channel_info : List ℕ
  pub flags : ℕ

pub record WriteResponse : Type 0 where
  pub status : ℕ
  pub count : ℕ
  pub remaining : ℕ
  pub write_channel_info_offset : ℕ
  pub write_channel_info_length : ℕ

-- `1 + (bytes - 1) / 65536` as a uint16_t, and 1 for no bytes.
unfoldable pub credit_charge : ℕ → ℕ
credit_charge bytes = if ltb 0 bytes then (1 + (bytes - 1) / 65536) % 65536 else 1

-- The header of a request that pays for `bytes` bytes.
unfoldable pub charged : Smb2SyncHeader → ℕ → Smb2SyncHeader
unfolding credit_charge
charged header bytes = record header {
  credit_charge = credit_charge bytes;
  credit_request = max 1 (credit_charge bytes);
}

unfoldable pub build_read_request : ReadRequestOptions → ℕ → ℕ → ℕ → Built
build_read_request options message_id tree_id session_id =
    throw_if (ltb 0xffff (length options.channel_info)) "SMB2 READ channel info is too large." (
      built (
        encode_smb2_sync_header
          (charged (request Command.read message_id tree_id session_id) options.length)
        ++ (u16_le 49
            ++ u8 0
            ++ u8 options.flags
            ++ u32_le options.length
            ++ u64_le options.offset
            ++ file_id_le options.file_id
            ++ u32_le options.minimum_count
            ++ u32_le options.channel
            ++ u32_le options.remaining_bytes
            ++ u16_le (if is_empty options.channel_info then 0 else smb2_header_size + 48)
            ++ u16_le (length options.channel_info)
            ++ options.channel_info
            ++ (if is_empty options.channel_info then u8 0 else []))))

abbrev pub read_kind : ResponseKind
read_kind = record {
  command = Command.read;
  article = "a";
  name = "READ";
  fixed_size = 16;
  structure_size = 17;
}

unfoldable pub decode_read_response : List ℕ → DecodeResult ReadResponse
decode_read_response bytes = do
  header ← success_response read_kind bytes
  data_offset ← byte_at bytes 66
  data_length ← read_u32_le bytes 68
  payload ← announced data_offset data_length "SMB2 READ response data is out of bounds." bytes
  data_remaining ← read_u32_le bytes 72
  flags ← read_u32_le bytes 76
  success (record {
    status = header.status;
    data_offset = data_offset;
    data_remaining = data_remaining;
    flags = flags % 256;
    payload = payload;
  })

unfoldable pub build_write_request : WriteRequestOptions → ℕ → ℕ → ℕ → Built
build_write_request options message_id tree_id session_id =
    throw_if (ltb 0xffffffff (length options.payload)) "SMB2 WRITE data is too large." (
      throw_if (ltb 0xffff (length options.channel_info)) "SMB2 WRITE channel info is too large." (
        built (
          encode_smb2_sync_header
            (charged (request Command.write message_id tree_id session_id) (length options.payload))
          ++ (u16_le 49
              ++ u16_le (if is_empty options.payload then 0 else smb2_header_size + 48)
              ++ u32_le (length options.payload)
              ++ u64_le options.offset
              ++ file_id_le options.file_id
              ++ u32_le options.channel
              ++ u32_le options.remaining_bytes
              ++ u16_le (
                  if is_empty options.channel_info
                  then 0
                  else smb2_header_size + 48 + length options.payload)
              ++ u16_le (length options.channel_info)
              ++ u32_le options.flags
              ++ options.payload
              ++ options.channel_info))))

abbrev pub write_kind : ResponseKind
write_kind = record {
  command = Command.write;
  article = "a";
  name = "WRITE";
  fixed_size = 16;
  structure_size = 17;
}

unfoldable pub decode_write_response : List ℕ → DecodeResult WriteResponse
decode_write_response bytes = do
  header ← success_response write_kind bytes
  count ← read_u32_le bytes 68
  remaining ← read_u32_le bytes 72
  write_channel_info_offset ← read_u16_le bytes 76
  write_channel_info_length ← read_u16_le bytes 78
  success (record {
    status = header.status;
    count = count;
    remaining = remaining;
    write_channel_info_offset = write_channel_info_offset;
    write_channel_info_length = write_channel_info_length;
  })
