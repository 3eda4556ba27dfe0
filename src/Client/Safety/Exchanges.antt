-- ===== src/Client/Safety/Exchanges.antt =====
-- One exchange of src/native_smb under the rules: exchangePayload, the exchangers and the functions
-- that open an object.
use smb_browser.Base.{
  String, inr, ◌≡◌, drop, inl, not_ltb→le, refl, ◌-◌, arith, length, length-drop, length-take, ◌<◌,
  ◌^◌, List, ℕ, ◌+◌,
}
use smb_browser.Client.{
  Ending, decoded, exchange_decoded, exchanger, finish, thrown, unless_cancelled, returned,
  exchange_payload,
}
use smb_browser.Client.Safety.Requests.{Builds, IsMessage}
use smb_browser.Client.Safety.Rules.{
  Obeys-call, Obeys-decode, Obeys-decoded, Obeys-exchange, Obeys-poll, Obeys-send, Got,
}
use smb_browser.Client.Traces.{Takes, IsAnswer, ends, Obeys, Part}
use smb_browser.Protocol.Frame.{
  decode_direct_tcp_payload, decode_direct_tcp_payload_length, encode_direct_tcp_frame,
}
use smb_browser.Wire.{
  cancelled, failed, failure, fault, invalid, success, Built, DecodeResult, ProtocolError,
  with_built,
}
use smb_browser.Wire.Reads.{
  Ensures-bind, Ensures-reject_if, Ensures-step, byte_at_in, slice_in, Ensures, Ensures-weaken,
}

-- A decoder that stays inside its buffer.
abbrev pub Decodes : {A : Type 0} → (List ℕ → DecodeResult A) → Type 0
Decodes decode = (bytes : List ℕ) → length bytes < 2 ^ 32 → Ensures (λ _. Unit {0}) (decode bytes)

pub Decodes-Ensures :
    {A : Type 0} (P : List ℕ → A → Type 0) (decode : List ℕ → DecodeResult A)
    → ((bytes : List ℕ) → length bytes < 2 ^ 32 → Ensures (P bytes) (decode bytes))
    → Decodes decode
Decodes-Ensures P decode h bytes small = Ensures-weaken (decode bytes) (h bytes small) λ a p. tt

decode_direct_tcp_payload_length-Ensures :
    (bytes : List ℕ) → Ensures (λ _. Unit {0}) (decode_direct_tcp_payload_length bytes)
unfolding decode_direct_tcp_payload_length
decode_direct_tcp_payload_length-Ensures bytes =
    let P = λ (_ : ℕ). Unit {0} in
    Ensures-reject_if P _ _ _ _ λ long.
      let size = not_ltb→le (length bytes) 4 long in
      Ensures-step P _ (byte_at_in bytes 0 (omega arith)) (
        Ensures-reject_if P _ _ _ _ λ zero. Ensures-step P _ (byte_at_in bytes 1 (omega arith)) (
          Ensures-step P _ (byte_at_in bytes 2 (omega arith))
            (Ensures-step P _ (byte_at_in bytes 3 (omega arith)) tt)))

pub decode_direct_tcp_payload-Ensures :
    (bytes : List ℕ)
    → length bytes < 2 ^ 32
    → Ensures (λ payload. length payload < 2 ^ 32) (decode_direct_tcp_payload bytes)
unfolding decode_direct_tcp_payload
decode_direct_tcp_payload-Ensures bytes small =
    let P = λ (payload : List ℕ). length payload < 2 ^ 32 in
    Ensures-bind (λ _. Unit {0}) P _ _ (decode_direct_tcp_payload_length-Ensures bytes)
      λ size k. Ensures-reject_if P _ _ _ _ λ long.
        let inside = not_ltb→le (length bytes) (4 + size) long in
        rw (slice_in bytes 4 (4 + size) (omega arith) inside)
          (omega (arith, length-take (4 + size - 4) (drop 4 bytes), length-drop 4 bytes))

Ends-returned :
    {A : Type 0} (P : A → Type 0) (n : ℕ) (plan : List Part) (r : DecodeResult A)
    → Ensures P r
    → Got P n plan (n + 1) plan (returned r)
Ends-returned P n plan (success a) p = (refl, refl, p)
Ends-returned P n plan (failure e) p = inl refl
Ends-returned P n plan fault p = absurd p

abbrev IsShort : List ℕ → Type 0
IsShort bytes = length bytes < 2 ^ 32

module _ (t s n c : ℕ) {before plan : List Part} (takes : Takes c before plan) where
  pub exchange_payload-Obeys :
      (r : Built)
      → Builds (IsMessage t s c n) r
      → Obeys t s (Got IsShort n plan) n before (exchange_payload r)
  unfolding exchange_payload
  exchange_payload-Obeys r builds =
      Obeys-exchange t s _ _ _ n c before plan r _ takes builds λ answer ok.
        Obeys-decoded t s _ _ _ IsShort 0 (n + 1) plan answer _ ok (λ e. inl refl)
          λ bytes small. ends (
            Ends-returned IsShort n plan (decode_direct_tcp_payload bytes)
              (decode_direct_tcp_payload-Ensures bytes small))

  pub exchange_decoded-Obeys :
      {A : Type 0} (used : ℕ) (r : Built) (decode : List ℕ → DecodeResult A)
      → Builds (IsMessage t s c n) r
      → Decodes decode
      → Obeys t s (Got (λ (a : A). Unit {0}) n plan) n before (exchange_decoded used r decode)
  unfolding exchange_decoded
  exchange_decoded-Obeys used r decode builds inside =
      Obeys-call t s _ _ _ IsShort used n (n + 1) before plan _ _ refl
        (exchange_payload-Obeys r builds) (λ e. inl refl) (λ e stopped. inr (refl, stopped))
        λ payload small.
          Obeys-decoded t s _ _ _ (λ _. Unit {0}) used (n + 1) plan _ _ (inside payload small)
            (λ e. inl refl) λ a p. ends (refl, refl, tt)

  module _ {A : Type 0} (message : String) (decode : List ℕ → DecodeResult A)
      (inside : Decodes decode) where
    -- An exchanger, for any way to end.
    module _ (Q : ℕ → List Part → Ending A → Type 0)
        (fails : (e : ProtocolError) → Q (n + 1) plan (returned (failure e)))
        (succeeds : (a : A) → Q (n + 1) plan (returned (success a))) where
      -- What an exchanger does with the answer.
      answered_with :
          (answer : DecodeResult (List ℕ))
          → IsAnswer answer
          → Obeys t s Q (n + 1) plan (
              decoded 0 answer λ bytes. unless_cancelled message (
                decoded 0 (decode_direct_tcp_payload bytes) λ payload.
                  decoded 0 (decode payload) λ response. finish (returned (success response))))
      answered_with answer ok =
          Obeys-decode t s Q IsShort 0 (n + 1) plan answer _ ok (λ e. fails _)
            λ bytes small. Obeys-poll t s Q message (n + 1) plan _ (fails _) (
              Obeys-decode t s Q IsShort 0 (n + 1) plan _ _
                (decode_direct_tcp_payload-Ensures bytes small) (λ e. fails _)
                λ payload short.
                  Obeys-decode t s Q (λ _. Unit {0}) 0 (n + 1) plan _ _ (inside payload short)
                    (λ e. fails _) λ a p. ends (succeeds a))

      pub exchanger_with :
          (r : Built)
          → Builds (IsMessage t s c n) r
          → Q n before (returned (failed cancelled message))
          → ((m : String)
              → with_built r encode_direct_tcp_frame ≡ invalid m
              → Q n before (thrown m))
          → Obeys t s Q n before (exchanger message r decode)
      unfolding exchanger
      exchanger_with r builds stopped throws =
          Obeys-poll t s Q message n before _ stopped
            (Obeys-send t s Q n c before plan r _ takes builds throws answered_with)

    pub answered-Obeys :
        (answer : DecodeResult (List ℕ))
        → IsAnswer answer
        → Obeys t s (Got (λ (a : A). Unit {0}) n plan) (n + 1) plan (
            decoded 0 answer λ bytes. unless_cancelled message (
              decoded 0 (decode_direct_tcp_payload bytes) λ payload.
                decoded 0 (decode payload) λ response. finish (returned (success response))))
    answered-Obeys = answered_with (Got _ n plan) (λ e. inl refl) λ a. (refl, refl, tt)

    pub exchanger-Obeys :
        (r : Built)
        → Builds (IsMessage t s c n) r
        → Obeys t s (Got (λ (a : A). Unit {0}) n plan) n before (exchanger message r decode)
    exchanger-Obeys r builds =
        exchanger_with (Got _ n plan) (λ e. inl refl) (λ a. (refl, refl, tt)) r builds
          (inr (refl, refl)) λ m e. tt
