-- ===== src/Client.antt =====
-- The conversations of src/native_smb with a server: `Transport::exchange` of Transport.h, the
-- cancellation test of SmbNative.cpp, and how an operation hands on a result. The transport and the
-- caller's cancellation are not fixed: an operation is the tree of what it does for each answer.
pub mod Traces
pub mod Runs
pub mod Safety
pub mod Exchangers
pub mod Operators
use smb_browser.Base.{Bool, List, String, if◌then◌else◌, ℕ}
use smb_browser.Protocol.Frame.{decode_direct_tcp_payload, encode_direct_tcp_frame}
use smb_browser.Protocol.Header.{request}
use smb_browser.Wire.{
  Built, DecodeResult, built, cancelled, failed, failure, fault, invalid, success, with_built,
}

-- What an operation does next: it ends, sends a frame and goes on with the transport's answer, asks
-- `isCancellationRequested(context)`, or calls the progress callback.
pub data Client {ℓ} (A : Type ℓ) : Type ℓ where
  finish : A → Client A
  send : List ℕ → (DecodeResult (List ℕ) → Client A) → Client A
  poll : (Bool → Client A) → Client A
  report : ℕ → ℕ → Client A → Client A

-- What a function returns, or the exception it throws; `unfinished` is a loop that goes on after the
-- rounds that the model gives it.
pub data Ending {ℓ} (A : Type ℓ) : Type ℓ where
  returned : DecodeResult A → Ending A
  thrown : String → Ending A
  unfinished : Ending A

unfoldable pub and_then {ℓ κ} : {A : Type ℓ} {B : Type κ} → Client A → (A → Client B) → Client B
and_then (finish a) k = k a
and_then (send frame f) k = send frame λ answer. and_then (f answer) k
and_then (poll f) k = poll λ b. and_then (f b) k
and_then (report sent_bytes total m) k = report sent_bytes total (and_then m k)

-- `if (!result.ok) return failure(code, message, used);`
unfoldable pub pass {ℓ κ} :
    {A : Type ℓ} {B : Type κ} → ℕ → Ending A → (A → Client (Ending B)) → Client (Ending B)
pass used (returned (success a)) k = k a
pass used (returned (failure e)) k = finish (returned (failure (record e { messages_used = used })))
pass used (returned fault) k = finish (returned fault)
pass used (thrown m) k = finish (thrown m)
pass used unfinished k = finish unfinished

-- A call whose failure ends the caller.
unfoldable pub call {ℓ κ} :
    {A : Type ℓ} {B : Type κ} → ℕ → Client (Ending A) → (A → Client (Ending B)) → Client (Ending B)
call used m k = and_then m λ o. pass used o k

-- A decoder whose failure ends the caller.
unfoldable pub decoded {ℓ κ} :
    {A : Type ℓ} {B : Type κ} → ℕ → DecodeResult A → (A → Client (Ending B)) → Client (Ending B)
decoded used result k = pass used (returned result) k

-- `if (isCancelled(context)) return cancelledResult();`
unfoldable pub unless_cancelled {ℓ} : {A : Type ℓ} → String → Client (Ending A) → Client (Ending A)
unless_cancelled message k = poll λ b. if b then finish (returned (failed cancelled message)) else k

-- Bytes of a builder, whose exception leaves the operation.
unfoldable pub with_bytes {ℓ} :
    {A : Type ℓ} → Built → (List ℕ → Client (Ending A)) → Client (Ending A)
with_bytes (built bytes) k = k bytes
with_bytes (invalid m) k = finish (thrown m)

-- `transport.exchange(encodeDirectTcpFrame(request), context)`
unfoldable pub exchange {ℓ} :
    {A : Type ℓ} → Built → (DecodeResult (List ℕ) → Client (Ending A)) → Client (Ending A)
exchange request k = with_bytes (with_built request encode_direct_tcp_frame) λ frame. send frame k

-- exchangePayload, which each operator has for itself.
unfoldable pub exchange_payload : Built → Client (Ending (List ℕ))
exchange_payload request =
    exchange request
      λ answer. decoded 0 answer λ bytes. finish (returned (decode_direct_tcp_payload bytes))

-- openObject, openFile, openDirectory and ioctl of the operators: a request and the decoded answer.
unfoldable pub exchange_decoded {ℓ} :
    {A : Type ℓ} → ℕ → Built → (List ℕ → DecodeResult A) → Client (Ending A)
exchange_decoded used request decode =
    call used (exchange_payload request)
      λ payload. decoded used (decode payload) λ response. finish (returned (success response))

-- The body of ReadExchanger.cpp and of the other exchangers.
unfoldable pub exchanger {ℓ} :
    {A : Type ℓ} → String → Built → (List ℕ → DecodeResult A) → Client (Ending A)
exchanger message request decode = unless_cancelled message (
    exchange request λ answer. decoded 0 answer λ bytes. unless_cancelled message (
      decoded 0 (decode_direct_tcp_payload bytes)
        λ payload. decoded 0 (decode payload) λ response. finish (returned (success response))))
