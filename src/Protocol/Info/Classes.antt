-- ===== src/Protocol/Info/Classes.antt =====
-- The information classes of fixed size of Protocol.cpp.
use smb_browser.Base.{arith, ◌<◌, ◌^◌, ◌≡◌}
use smb_browser.Protocol.Info.{
  FileBasicInformation, build_file_basic_information, decode_file_basic_information,
}
use smb_browser.Wire.{byte_at, read_u32_le, read_u64_le, reject_if, success, ◌>>=◌, ◌>>◌}
use smb_browser.Wire.Words.{u32_joined, u64_joined}

-- Each field fits its C++ type.
pub record IsBasicInformation (info : FileBasicInformation) : Type 0 where
  pub creation_time : info.creation_time < 2 ^ 64
  pub last_access_time : info.last_access_time < 2 ^ 64
  pub last_write_time : info.last_write_time < 2 ^ 64
  pub change_time : info.change_time < 2 ^ 64
  pub file_attributes : info.file_attributes < 2 ^ 32

-- For every FILE_BASIC_INFORMATION whose fields fit their C++ types, decodeFileBasicInformation
-- gives it back from what buildFileBasicInformation wrote.
pub decode_file_basic_information-build :
    (info : FileBasicInformation)
    → IsBasicInformation info
    → decode_file_basic_information (build_file_basic_information info) ≡ success info
unfolding decode_file_basic_information build_file_basic_information ◌>>=◌ ◌>>◌ reject_if byte_at
    read_u32_le read_u64_le
decode_file_basic_information-build info v = ground (
  arith,
  u64_joined info.creation_time,
  u64_joined info.last_access_time,
  u64_joined info.last_write_time,
  u64_joined info.change_time,
  u32_joined info.file_attributes,
)
