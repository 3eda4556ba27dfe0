-- ===== src/Wire.antt =====
-- The byte helpers at the top of src/native_smb/Protocol.cpp and the result types of Protocol.h.
-- A `ByteVector` is a list of numbers; the pair (data, size) that a decoder takes is the list of the
-- `size` bytes at `data`. A read or a copy outside the buffer, which C++ leaves undefined, is the
-- result `fault`; the exception `std::invalid_argument` of a builder is the result `invalid`.
pub mod Reads
pub mod Words
pub mod Behind
use smb_browser.Base.{
  ℕ, ◌+◌, ◌-◌, ◌*◌, ◌/◌, ◌%◌, ◌^◌, Bool, true, false, List, [], ◌∷◌, ◌++◌, Option, none, some,
  get_elem?, length, take, drop, replicate, leb, ◌&&◌, if◌then◌else◌, String, ◌==◌,
}

-- `ErrorCode` of SmbNative.h; `no_error` is its `None`.
pub data ErrorCode : Type 0 where
  no_error cancelled timeout dns_error server_unavailable share_unavailable : ErrorCode
  authentication_failed permission_denied protocol_unsupported file_not_found : ErrorCode
  already_exists directory_not_empty invalid_path network_error io_error : ErrorCode
  unsupported_capability internal_error : ErrorCode

pub record ProtocolError : Type 0 where
  pub code : ErrorCode
  pub message : String
  pub messages_used : ℕ

pub data DecodeResult {ℓ} (A : Type ℓ) : Type ℓ where
  success : A → DecodeResult A
  failure : ProtocolError → DecodeResult A
  fault : DecodeResult A

infixl 5 ◌>>=◌ ◌>>◌
unfoldable pub ◌>>=◌ {ℓ κ} :
    {A : Type ℓ} {B : Type κ} → DecodeResult A → (A → DecodeResult B) → DecodeResult B
success a >>= f = f a
failure e >>= f = failure e
fault >>= f = fault

unfoldable pub ◌>>◌ {ℓ} : {B : Type ℓ} → DecodeResult (Unit {0}) → DecodeResult B → DecodeResult B
unfolding ◌>>=◌
m >> k = m >>= λ _. k

abbrev pub failed {ℓ} : {A : Type ℓ} → ErrorCode → String → DecodeResult A
failed c m = failure (record { code = c; message = m; messages_used = 0 })

-- `if (bad) return failure(code, message);`
unfoldable pub reject_if : Bool → ErrorCode → String → DecodeResult (Unit {0})
reject_if true c m = failed c m
reject_if false c m = success tt

-- A builder returns its bytes or throws.
pub data Built : Type 0 where
  built : List ℕ → Built
  invalid : String → Built

unfoldable pub throw_if : Bool → String → Built → Built
throw_if true m k = invalid m
throw_if false m k = k

-- A builder that calls another one: the exception passes through.
unfoldable pub with_built : Built → (List ℕ → Built) → Built
with_built (built bytes) k = k bytes
with_built (invalid m) k = invalid m

-- appendU16Le, appendU32Le and appendU64Le: the bytes that each appends. `(value >> k) & 0xFF` is
-- `value / 2 ^ k % 256`.
abbrev pub u8 : ℕ → List ℕ
u8 v = v % 256 ∷ []

unfoldable pub u16_le : ℕ → List ℕ
u16_le v = v % 256 ∷ v / 256 % 256 ∷ []

unfoldable pub u32_le : ℕ → List ℕ
u32_le v = v % 256 ∷ v / 256 % 256 ∷ v / 65536 % 256 ∷ v / 16777216 % 256 ∷ []

unfoldable pub u64_le : ℕ → List ℕ
unfolding u32_le
u64_le v = u32_le v ++ u32_le (v / 4294967296)

-- FileId, and appendFileId.
pub record FileId : Type 0 where
  pub persistent : ℕ
  pub volatile_id : ℕ

unfoldable pub file_id_le : FileId → List ℕ
unfolding u64_le
file_id_le f = u64_le f.persistent ++ u64_le f.volatile_id

-- `data[i]`
unfoldable pub byte_at : List ℕ → ℕ → DecodeResult ℕ
byte_at bytes i = elim (get_elem? bytes i) [ none ↦ fault | some b ↦ success b ]

-- readU16Le, readU32Le and readU64Le at `data + i`. The shifted bytes share no bit, so `|` is `+`.
unfoldable pub read_u16_le : List ℕ → ℕ → DecodeResult ℕ
read_u16_le bytes i = do a ← byte_at bytes i; b ← byte_at bytes (i + 1); success (a + b * 256)

unfoldable pub read_u32_le : List ℕ → ℕ → DecodeResult ℕ
read_u32_le bytes i = do
  a ← byte_at bytes i
  b ← byte_at bytes (i + 1)
  c ← byte_at bytes (i + 2)
  d ← byte_at bytes (i + 3)
  success (a + b * 256 + c * 65536 + d * 16777216)

-- The loop of readU64Le takes the bytes from the last to the first, as two 32-bit halves here.
unfoldable pub read_u64_le : List ℕ → ℕ → DecodeResult ℕ
read_u64_le bytes i = do
  low ← read_u32_le bytes i
  high ← read_u32_le bytes (i + 4)
  success (low + high * 4294967296)

unfoldable pub read_file_id : List ℕ → ℕ → DecodeResult FileId
read_file_id bytes i = do
  p ← read_u64_le bytes i
  v ← read_u64_le bytes (i + 8)
  success (record { persistent = p; volatile_id = v })

-- `assign(data + from, data + to)` and `std::copy(data + from, data + to, …)`.
unfoldable pub slice : List ℕ → ℕ → ℕ → DecodeResult (List ℕ)
slice bytes from to =
    if leb from to && leb to (length bytes)
    then success (take (to - from) (drop from bytes))
    else fault

-- appendPadding: zeros up to a multiple of `alignment`, for a buffer of `size` bytes.
unfoldable pub padding : ℕ → ℕ → List ℕ
padding size alignment =
    if size % alignment == 0 then [] else replicate (alignment - size % alignment) 0
