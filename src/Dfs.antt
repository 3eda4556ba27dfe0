-- ===== src/Dfs.antt =====
-- src/native_smb/DfsReferral.cpp: the request for DFS referrals and the decoder of the response, whose
-- entries point to strings behind them.
pub mod Safety
pub mod Fetcher
mod Examples
use smb_browser.Base.{
  Bool, List, [], bit_and, false, if◌then◌else◌, leb, length, ltb, not, suc, true, zero, ℕ, ◌++◌,
  ◌+◌, ◌==◌, ◌||◌, ◌∷◌,
}
use smb_browser.Protocol.Utf16.{decode_utf16_le, encode_utf16_le}
use smb_browser.Wire.{
  Built, DecodeResult, built, failed, failure, fault, io_error, protocol_unsupported, read_u16_le,
  read_u32_le, reject_if, slice, success, u16_le, with_built, ◌>>=◌, ◌>>◌,
}

pub record DfsReferralEntry : Type 0 where
  pub version : ℕ
  pub server_type : ℕ
  pub flags : ℕ
  pub time_to_live_seconds : ℕ
  pub dfs_path : List ℕ
  pub dfs_alternate_path : List ℕ
  pub network_address : List ℕ
  pub root_target : Bool
  pub name_list_referral : Bool

pub record DfsReferralResponse : Type 0 where
  pub path_consumed_bytes : ℕ
  pub header_flags : ℕ
  pub entries : List DfsReferralEntry

-- The fixed part of an entry: its numbers, and where its strings stand.
pub record ReferralFields : Type 0 where
  pub server_type : ℕ
  pub flags : ℕ
  pub time_to_live_seconds : ℕ
  pub name_list_referral : Bool
  pub dfs_path_offset : ℕ
  pub dfs_alternate_path_offset : ℕ
  pub network_address_offset : ℕ

-- buildDfsGetReferralRequest
unfoldable pub build_dfs_get_referral_request : List ℕ → ℕ → Built
build_dfs_get_referral_request request_path max_referral_level =
    with_built (encode_utf16_le request_path)
      λ encoded. built (u16_le max_referral_level ++ (encoded ++ u16_le 0))

-- The loop of readReferralString: the place of the NUL. The first argument counts the rounds left;
-- running out of it is a `fault` too.
unfoldable pub string_end : ℕ → List ℕ → ℕ → DecodeResult ℕ
string_end zero bytes end = fault
string_end (suc rounds) bytes end = elim (ltb (end + 1) (length bytes)) [
  | false ↦ failed io_error "DFS referral string is not null-terminated."
  | true ↦ read_u16_le bytes end >>= λ code_unit. elim (code_unit == 0) [
    | true ↦ success end
    | false ↦ string_end rounds bytes (end + 2)
  ]
]

unfoldable pub read_referral_string : List ℕ → ℕ → DecodeResult (List ℕ)
read_referral_string bytes offset = do
  reject_if (leb (length bytes) offset) io_error "DFS referral string offset is out of bounds."
  end ← string_end (suc (length bytes)) bytes offset
  encoded ← slice bytes offset end
  decode_utf16_le encoded

-- readOptionalString, whose caller has one message for every error.
unfoldable pub relabelled {ℓ} : {A : Type ℓ} → DecodeResult A → DecodeResult A
relabelled (success a) = success a
relabelled (failure e) = failed io_error "DFS referral entry string is invalid."
relabelled fault = fault

unfoldable pub read_optional_string : List ℕ → ℕ → ℕ → DecodeResult (List ℕ)
read_optional_string bytes entry_offset string_offset =
    if string_offset == 0
    then success []
    else relabelled (read_referral_string bytes (entry_offset + string_offset))

unfoldable pub fields_v2 : List ℕ → ℕ → ℕ → DecodeResult ReferralFields
fields_v2 bytes o entry_size = do
  reject_if (ltb entry_size 22) io_error "DFS referral v2 entry is truncated."
  server_type ← read_u16_le bytes (o + 4)
  flags ← read_u16_le bytes (o + 6)
  time_to_live ← read_u32_le bytes (o + 12)
  path ← read_u16_le bytes (o + 16)
  alternate ← read_u16_le bytes (o + 18)
  address ← read_u16_le bytes (o + 20)
  success (record {
    server_type = server_type;
    flags = flags;
    time_to_live_seconds = time_to_live;
    name_list_referral = false;
    dfs_path_offset = path;
    dfs_alternate_path_offset = alternate;
    network_address_offset = address;
  })

-- A name list referral has one string: the other two offsets stay 0. They stand in the fixed part in
-- either case.
unfoldable pub fields_v3 : List ℕ → ℕ → ℕ → DecodeResult ReferralFields
fields_v3 bytes o entry_size = do
  reject_if (ltb entry_size 34) io_error "DFS referral v3/v4 entry is truncated."
  server_type ← read_u16_le bytes (o + 4)
  flags ← read_u16_le bytes (o + 6)
  time_to_live ← read_u32_le bytes (o + 8)
  path ← read_u16_le bytes (o + 12)
  alternate ← read_u16_le bytes (o + 14)
  address ← read_u16_le bytes (o + 16)
  let name_list = not (bit_and flags 2 == 0)
  success (record {
    server_type = server_type;
    flags = flags;
    time_to_live_seconds = time_to_live;
    name_list_referral = name_list;
    dfs_path_offset = path;
    dfs_alternate_path_offset = if name_list then 0 else alternate;
    network_address_offset = if name_list then 0 else address;
  })

unfoldable pub referral_fields : ℕ → List ℕ → ℕ → ℕ → DecodeResult ReferralFields
referral_fields version bytes o entry_size =
    if version == 2
    then fields_v2 bytes o entry_size
    else if version == 3 || version == 4
    then fields_v3 bytes o entry_size
    else failed protocol_unsupported "Unsupported DFS referral entry version."

-- decodeReferralEntry
unfoldable pub decode_referral_entry : List ℕ → ℕ → DecodeResult DfsReferralEntry
decode_referral_entry bytes o = do
  reject_if (ltb (length bytes) (o + 4)) io_error "DFS referral entry is truncated."
  version ← read_u16_le bytes o
  entry_size ← read_u16_le bytes (o + 2)
  reject_if (entry_size == 0 || ltb (length bytes) (o + entry_size)) io_error
      "DFS referral entry size is invalid."
  fields ← referral_fields version bytes o entry_size
  path ← read_optional_string bytes o fields.dfs_path_offset
  alternate ← read_optional_string bytes o fields.dfs_alternate_path_offset
  address ← read_optional_string bytes o fields.network_address_offset
  success (record {
    version = version;
    server_type = fields.server_type;
    flags = fields.flags;
    time_to_live_seconds = fields.time_to_live_seconds;
    dfs_path = path;
    dfs_alternate_path = alternate;
    network_address = address;
    root_target = fields.server_type == 1;
    name_list_referral = fields.name_list_referral;
  })

-- The loop of decodeDfsReferralResponse over the announced number of entries.
unfoldable pub referral_entries : ℕ → List ℕ → ℕ → DecodeResult (List DfsReferralEntry)
referral_entries zero bytes o = success []
referral_entries (suc count) bytes o = do
  reject_if (ltb (length bytes) (o + 4)) io_error "DFS referral response entries are truncated."
  entry_size ← read_u16_le bytes (o + 2)
  entry ← decode_referral_entry bytes o
  rest ← referral_entries count bytes (o + entry_size)
  success (entry ∷ rest)

unfoldable pub decode_dfs_referral_response : List ℕ → DecodeResult DfsReferralResponse
decode_dfs_referral_response bytes = do
  reject_if (ltb (length bytes) 8) io_error "DFS referral response header is truncated."
  path_consumed ← read_u16_le bytes 0
  count ← read_u16_le bytes 2
  header_flags ← read_u32_le bytes 4
  entries ← referral_entries count bytes 8
  success (record {
    path_consumed_bytes = path_consumed;
    header_flags = header_flags;
    entries = entries;
  })
