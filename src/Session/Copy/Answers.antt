-- ===== src/Session/Copy/Answers.antt =====
-- The exchanges of copyFileServerSide of src/native_smb/NativeSmbSession.cpp: a request is always
-- sent, and what follows its answer asks nothing more.
use smb_browser.Base.{length, ◌<◌, ◌%◌, ◌^◌, ◌∙◌, List, String, refl, ◌≡◌, ℕ, ◌+◌}
use smb_browser.Client.{
  exchanger, unless_cancelled, exchange, exchange_decoded, exchange_payload, Client, Ending,
  and_then, call, decoded, finish, pass, returned, send, thrown, with_bytes,
}
use smb_browser.Client.Exchangers.Sends.{Any}
use smb_browser.Client.Safety.Exchanges.{Decodes, decode_direct_tcp_payload-Ensures}
use smb_browser.Client.Safety.Requests.{IsMessage, encode_direct_tcp_frame-IsFrame, Builds}
use smb_browser.Client.Traces.{IsAnswer, IsFrame, Obeys, Part, Takes, sends}
use smb_browser.Protocol.Frame.{decode_direct_tcp_payload, encode_direct_tcp_frame}
use smb_browser.Protocol.Header.{request}
use smb_browser.Session.Copy.{never_cancelled}
use smb_browser.Wire.{with_built, Built, DecodeResult, built, failure, fault, invalid, success}
use smb_browser.Wire.Reads.{Ensures}

-- A conversation that is over, with a result.
record EndsAt {A : Type 0} (P : A → Type 0) (c : Client (Ending A)) : Type 0 where
  result : DecodeResult A
  same : c ≡ finish (returned result)
  inside : Ensures P result

module _ {A B : Type 0} (P : A → Type 0) (Q : B → Type 0) where
  decoded-EndsAt :
      (used : ℕ) (r : DecodeResult A) (k : A → Client (Ending B))
      → Ensures P r
      → ((a : A) → P a → EndsAt Q (k a))
      → EndsAt Q (decoded used r k)
  unfolding decoded pass
  decoded-EndsAt used (success a) k p h = h a p
  decoded-EndsAt used (failure e) k p h = record { result = _; same = refl; inside = tt }
  decoded-EndsAt used fault k p h = absurd p

  quiet-EndsAt :
      (used : ℕ) (r : DecodeResult A) (k : A → Client (Ending B))
      → Ensures P r
      → ((a : A) → P a → EndsAt Q (never_cancelled (k a)))
      → EndsAt Q (never_cancelled (decoded used r k))
  unfolding decoded pass never_cancelled
  quiet-EndsAt used (success a) k p h = h a p
  quiet-EndsAt used (failure e) k p h = record { result = _; same = refl; inside = tt }
  quiet-EndsAt used fault k p h = absurd p

  called-EndsAt :
      (used : ℕ) (c : Client (Ending A)) (k : A → Client (Ending B))
      → EndsAt P c
      → ((a : A) → P a → EndsAt Q (k a))
      → EndsAt Q (call used c k)
  unfolding call and_then pass decoded
  called-EndsAt used c k over h = rw over.same (decoded-EndsAt used over.result k over.inside h)

-- What a request that is sent comes to, for whatever goes on with its result.
module _ (t i n c : ℕ) {A B : Type 0} (P : A → Type 0) (Q : ℕ → List Part → B → Type 0)
    {before after : List Part} (takes : Takes c before after) (go : Ending A → Client B) where
  sent :
      (frame : Built) (k : DecodeResult (List ℕ) → Client (Ending A))
      → Builds (IsFrame t i c n) frame
      → ((answer : DecodeResult (List ℕ)) → IsAnswer answer → EndsAt P (k answer))
      → ((r : DecodeResult A) → Ensures P r → Obeys t i Q (n + 1) after (go (returned r)))
      → ((m : String) → Obeys t i Q n before (go (thrown m)))
      → Obeys t i Q n before (and_then (with_bytes frame λ f. send f k) go)
  unfolding with_bytes and_then
  sent (built bytes) k is_frame over good bad =
      sends is_frame takes λ answer ok. let o = over answer ok in rw o.same (good o.result o.inside)
  sent (invalid m) k is_frame over good bad = bad m

-- The frame of a request whose message id is the same number of 64 bits.
pub IsFrame-of :
    (t i c k n : ℕ) (request : Built)
    → k % 2 ^ 64 ≡ n % 2 ^ 64
    → Builds (IsMessage t i c k) request
    → Builds (IsFrame t i c n) (with_built request encode_direct_tcp_frame)
IsFrame-of t i c k n request same builds =
    shifted (with_built request encode_direct_tcp_frame)
      (encode_direct_tcp_frame-IsFrame t i c k request builds)
  where
    shifted : (r : Built) → Builds (IsFrame t i c k) r → Builds (IsFrame t i c n) r
    shifted (built bytes) h = record {
      of_command = h.of_command;
      of_message = h.of_message ∙ same;
      of_tree = h.of_tree;
      of_session = h.of_session;
    }
    shifted (invalid m) h = tt

exchange_decoded-and_then :
    {A B : Type 0} (r : Built) (decode : List ℕ → DecodeResult A) (go : Ending A → Client B)
    → and_then (exchange_decoded 0 r decode) go
      ≡ and_then
          (with_bytes (with_built r encode_direct_tcp_frame) λ frame. send frame λ answer.
            call 0
              (decoded 0 answer λ bytes. finish (returned (decode_direct_tcp_payload bytes)))
              λ payload. decoded 0 (decode payload) λ a. finish (returned (success a)))
          go
unfolding exchange_decoded exchange_payload exchange with_bytes call and_then pass
exchange_decoded-and_then r decode go = spread (with_built r encode_direct_tcp_frame)
  where
    spread :
        (b : Built)
        → and_then
            (call 0
              (with_bytes b λ frame. send frame λ answer.
                decoded 0 answer λ bytes. finish (returned (decode_direct_tcp_payload bytes)))
              λ payload. decoded 0 (decode payload) λ a. finish (returned (success a)))
            go
          ≡ and_then
              (with_bytes b λ frame. send frame λ answer.
                call 0
                  (decoded 0 answer λ bytes. finish (returned (decode_direct_tcp_payload bytes)))
                  λ payload. decoded 0 (decode payload) λ a. finish (returned (success a)))
              go
    spread (built bytes) = refl
    spread (invalid m) = refl

never_cancelled-exchanger :
    {A : Type 0} (message : String) (r : Built) (decode : List ℕ → DecodeResult A)
    → never_cancelled (exchanger message r decode) ≡ (
        with_bytes (with_built r encode_direct_tcp_frame) λ frame. send frame λ answer.
          never_cancelled (
            decoded 0 answer λ bytes. unless_cancelled message (
              decoded 0
                (decode_direct_tcp_payload bytes)
                λ payload. decoded 0 (decode payload) λ a. finish (returned (success a)))))
unfolding exchanger exchange unless_cancelled never_cancelled with_bytes
never_cancelled-exchanger message r decode = spread (with_built r encode_direct_tcp_frame)
  where
    spread :
        (b : Built)
        → never_cancelled (
            with_bytes b λ frame. send frame λ answer. decoded 0 answer λ bytes.
              unless_cancelled message (
                decoded 0
                  (decode_direct_tcp_payload bytes)
                  λ payload. decoded 0 (decode payload) λ a. finish (returned (success a))))
          ≡ (with_bytes b λ frame. send frame λ answer. never_cancelled (
              decoded 0 answer λ bytes. unless_cancelled message (
                decoded 0
                  (decode_direct_tcp_payload bytes)
                  λ payload. decoded 0 (decode payload) λ a. finish (returned (success a)))))
    spread (built bytes) = refl
    spread (invalid m) = refl

abbrev Short : List ℕ → Type 0
Short bytes = length bytes < 2 ^ 32

module _ (t i c k n : ℕ) {A B : Type 0} (Q : ℕ → List Part → B → Type 0) {before after : List Part}
    (takes : Takes c before after) (go : Ending A → Client B) (r : Built)
    (decode : List ℕ → DecodeResult A) where
  pub Obeys-exchange_decoded :
      k % 2 ^ 64 ≡ n % 2 ^ 64
      → Builds (IsMessage t i c k) r
      → Decodes decode
      → ((a : DecodeResult A) → Ensures Any a → Obeys t i Q (n + 1) after (go (returned a)))
      → ((m : String) → Obeys t i Q n before (go (thrown m)))
      → Obeys t i Q n before (and_then (exchange_decoded 0 r decode) go)
  Obeys-exchange_decoded same builds inside good bad = rw (exchange_decoded-and_then r decode go) (
      sent t i n c Any Q takes go (with_built r encode_direct_tcp_frame) _
        (IsFrame-of t i c k n r same builds)
        (λ answer ok.
          called-EndsAt Short Any 0 _ _
            (decoded-EndsAt Short Short 0 answer _ ok λ bytes small. record {
              result = decode_direct_tcp_payload bytes;
              same = refl;
              inside = decode_direct_tcp_payload-Ensures bytes small;
            })
            λ payload small.
              decoded-EndsAt Any Any 0 (decode payload) _ (inside payload small)
                λ a p. record { result = success a; same = refl; inside = tt })
        good bad)

  pub Obeys-quiet :
      (message : String)
      → k % 2 ^ 64 ≡ n % 2 ^ 64
      → Builds (IsMessage t i c k) r
      → Decodes decode
      → ((a : DecodeResult A) → Ensures Any a → Obeys t i Q (n + 1) after (go (returned a)))
      → ((m : String) → Obeys t i Q n before (go (thrown m)))
      → Obeys t i Q n before (and_then (never_cancelled (exchanger message r decode)) go)
  unfolding unless_cancelled never_cancelled
  Obeys-quiet message same builds inside good bad =
      rw (never_cancelled-exchanger message r decode) (
        sent t i n c Any Q takes go (with_built r encode_direct_tcp_frame) _
          (IsFrame-of t i c k n r same builds)
          (λ answer ok. quiet-EndsAt Short Any 0 answer _ ok λ bytes small.
            quiet-EndsAt Short Any 0 _ _ (decode_direct_tcp_payload-Ensures bytes small)
              λ payload short.
                quiet-EndsAt Any Any 0 (decode payload) _ (inside payload short)
                  λ a p. record { result = success a; same = refl; inside = tt })
          good bad)
