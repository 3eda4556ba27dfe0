-- ===== src/Client/Safety/Rules.antt =====
-- The rules that the conversations of src/native_smb are checked with, one for each part of
-- Client.antt.
use smb_browser.Base.{
  refl, sym, Bool, if◌then◌else◌, inl, inr, String, false, true, ◌≡◌, ◌⊎◌, List, ℕ, ◌+◌,
}
use smb_browser.Client.{
  finish, Client, Ending, call, decoded, exchange, pass, returned, thrown, unfinished,
  unless_cancelled, with_bytes,
}
use smb_browser.Client.Safety.Requests.{Builds, IsMessage, encode_direct_tcp_frame-IsFrame}
use smb_browser.Client.Traces.{
  Takes, IsAnswer, IsFrame, Obeys, Obeys-and_then, Part, asks, ends, sends,
}
use smb_browser.Protocol.Frame.{encode_direct_tcp_frame}
use smb_browser.Wire.{
  Built, DecodeResult, ProtocolError, built, cancelled, failed, failure, fault, invalid, success,
  with_built,
}
use smb_browser.Wire.Reads.{Ensures}

-- How a function of this client ends: with a result that satisfies `Good`, with an error that
-- satisfies `Fail`, by an exception, or in a loop that goes on (`Goes`); never outside a buffer.
abbrev pub Ends :
    {A : Type 0}
    → (ℕ → List Part → A → Type 0)
    → (ℕ → ProtocolError → Type 0)
    → (ℕ → Type 0)
    → ℕ
    → List Part
    → Ending A
    → Type 0
Ends Good Fail Goes n plan (returned (success a)) = Good n plan a
Ends Good Fail Goes n plan (returned (failure e)) = Fail n e
Ends Good Fail Goes n plan (returned fault) = ⊥
Ends Good Fail Goes n plan (thrown m) = Unit {0}
Ends Good Fail Goes n plan unfinished = Goes n

-- The error that a caller makes of an error.
abbrev pub counted : ℕ → ProtocolError → ProtocolError
counted used e = record e { messages_used = used }

-- One request and its response: the request was sent, or the call was cancelled before.
abbrev pub Got : {A : Type 0} → (A → Type 0) → ℕ → List Part → ℕ → List Part → Ending A → Type 0
Got P n after =
    Ends (λ n' plan a. (n' ≡ n + 1) × (plan ≡ after) × P a)
      (λ n' e. (n' ≡ n + 1) ⊎ ((n' ≡ n) × (e.code ≡ cancelled))) (λ n'. ⊥)

-- The rules for any way to end.
module _ (t s : ℕ) {A : Type 0} (Q : ℕ → List Part → Ending A → Type 0) where
  Obeys-if :
      (n : ℕ) (plan : List Part) (a : Ending A) (k : Client (Ending A))
      → Q n plan a
      → Obeys t s Q n plan k
      → (b : Bool) → Obeys t s Q n plan (if b then finish a else k)
  Obeys-if n plan a k stopped d true = ends stopped
  Obeys-if n plan a k stopped d false = d

  pub Obeys-poll :
      (message : String) (n : ℕ) (plan : List Part) (k : Client (Ending A))
      → Q n plan (returned (failed cancelled message))
      → Obeys t s Q n plan k
      → Obeys t s Q n plan (unless_cancelled message k)
  unfolding unless_cancelled
  Obeys-poll message n plan k stopped d = asks (Obeys-if n plan _ k stopped d)

  pub Obeys-decode :
      {B : Type 0} (P : B → Type 0) (used n : ℕ) (plan : List Part) (r : DecodeResult B)
      (k : B → Client (Ending A))
      → Ensures P r
      → ((e : ProtocolError) → Q n plan (returned (failure (counted used e))))
      → ((b : B) → P b → Obeys t s Q n plan (k b))
      → Obeys t s Q n plan (decoded used r k)
  unfolding decoded pass
  Obeys-decode P used n plan (success b) k p fails h = h b p
  Obeys-decode P used n plan (failure e) k p fails h = ends (fails e)
  Obeys-decode P used n plan fault k p fails h = absurd p

  Obeys-build :
      (P : List ℕ → Type 0) (n : ℕ) (plan : List Part) (r : Built) (k : List ℕ → Client (Ending A))
      → Builds P r
      → ((m : String) → r ≡ invalid m → Q n plan (thrown m))
      → ((bytes : List ℕ) → P bytes → Obeys t s Q n plan (k bytes))
      → Obeys t s Q n plan (with_bytes r k)
  unfolding with_bytes
  Obeys-build P n plan (built bytes) k p throws h = h bytes p
  Obeys-build P n plan (invalid m) k p throws h = ends (throws m refl)

  pub Obeys-send :
      (n c : ℕ) (before after : List Part) (r : Built)
      (k : DecodeResult (List ℕ) → Client (Ending A))
      → Takes c before after
      → Builds (IsMessage t s c n) r
      → ((m : String) → with_built r encode_direct_tcp_frame ≡ invalid m → Q n before (thrown m))
      → ((answer : DecodeResult (List ℕ)) → IsAnswer answer → Obeys t s Q (n + 1) after (k answer))
      → Obeys t s Q n before (exchange r k)
  unfolding exchange
  Obeys-send n c before after r k takes builds throws h =
      Obeys-build (IsFrame t s c n) n before (with_built r encode_direct_tcp_frame) _
        (encode_direct_tcp_frame-IsFrame t s c n r builds) throws
        λ frame is_frame. sends is_frame takes h

module _ (t s : ℕ) {A : Type 0} (Good : ℕ → List Part → A → Type 0)
    (Fail : ℕ → ProtocolError → Type 0) (Goes : ℕ → Type 0) where
  pub Obeys-unless_cancelled :
      (message : String) (n : ℕ) (plan : List Part) (k : Client (Ending A))
      → Fail n (record { code = cancelled; message = message; messages_used = 0 })
      → Obeys t s (Ends Good Fail Goes) n plan k
      → Obeys t s (Ends Good Fail Goes) n plan (unless_cancelled message k)
  Obeys-unless_cancelled = Obeys-poll t s (Ends Good Fail Goes)

  pub Obeys-decoded :
      {B : Type 0} (P : B → Type 0) (used n : ℕ) (plan : List Part) (r : DecodeResult B)
      (k : B → Client (Ending A))
      → Ensures P r
      → ((e : ProtocolError) → Fail n (counted used e))
      → ((b : B) → P b → Obeys t s (Ends Good Fail Goes) n plan (k b))
      → Obeys t s (Ends Good Fail Goes) n plan (decoded used r k)
  Obeys-decoded = Obeys-decode t s (Ends Good Fail Goes)

  pub Obeys-with_bytes :
      (P : List ℕ → Type 0) (n : ℕ) (plan : List Part) (r : Built) (k : List ℕ → Client (Ending A))
      → Builds P r
      → ((bytes : List ℕ) → P bytes → Obeys t s (Ends Good Fail Goes) n plan (k bytes))
      → Obeys t s (Ends Good Fail Goes) n plan (with_bytes r k)
  Obeys-with_bytes P n plan r k p h =
      Obeys-build t s (Ends Good Fail Goes) P n plan r k p (λ m e. tt) h

  pub Obeys-exchange :
      (n c : ℕ) (before after : List Part) (r : Built)
      (k : DecodeResult (List ℕ) → Client (Ending A))
      → Takes c before after
      → Builds (IsMessage t s c n) r
      → ((answer : DecodeResult (List ℕ))
          → IsAnswer answer
          → Obeys t s (Ends Good Fail Goes) (n + 1) after (k answer))
      → Obeys t s (Ends Good Fail Goes) n before (exchange r k)
  Obeys-exchange n c before after r k takes builds h =
      Obeys-send t s (Ends Good Fail Goes) n c before after r k takes builds (λ m e. tt) h

  Obeys-pass :
      {B : Type 0} (P : B → Type 0) (used n : ℕ) (after : List Part) (k : B → Client (Ending A))
      → ((e : ProtocolError) → Fail (n + 1) (counted used e))
      → ((e : ProtocolError) → e.code ≡ cancelled → Fail n (counted used e))
      → ((b : B) → P b → Obeys t s (Ends Good Fail Goes) (n + 1) after (k b))
      → (n' : ℕ) (plan : List Part) (o : Ending B) → Got P n after n' plan o
      → Obeys t s (Ends Good Fail Goes) n' plan (pass used o k)
  unfolding pass
  Obeys-pass P used n after k late early h n' plan (returned (success b)) (i, e, p) =
      rw (i, e) (h b p)
  Obeys-pass P used n after k late early h n' plan (returned (failure e)) (inl i) =
      rw i (ends (late e))
  Obeys-pass P used n after k late early h n' plan (returned (failure e)) (inr (i, c)) =
      rw i (ends (early e c))
  Obeys-pass P used n after k late early h n' plan (returned fault) p = absurd p
  Obeys-pass P used n after k late early h n' plan (thrown m) p = ends tt
  Obeys-pass P used n after k late early h n' plan unfinished p = absurd p

  pub Obeys-call :
      {B : Type 0} (P : B → Type 0) (used n next : ℕ) (before after : List Part)
      (m : Client (Ending B)) (k : B → Client (Ending A))
      → next ≡ n + 1
      → Obeys t s (Got P n after) n before m
      → ((e : ProtocolError) → Fail next (counted used e))
      → ((e : ProtocolError) → e.code ≡ cancelled → Fail n (counted used e))
      → ((b : B) → P b → Obeys t s (Ends Good Fail Goes) next after (k b))
      → Obeys t s (Ends Good Fail Goes) n before (call used m k)
  unfolding call
  Obeys-call P used n next before after m k i d late early h =
      Obeys-and_then d
        (Obeys-pass P used n after k (λ e. rw (sym i) (late e)) early λ b p. rw (sym i) (h b p))

  pub Obeys-choice :
      (n : ℕ) (plan : List Part) (left right : Client (Ending A)) (b : Bool)
      → Obeys t s (Ends Good Fail Goes) n plan left
      → Obeys t s (Ends Good Fail Goes) n plan right
      → Obeys t s (Ends Good Fail Goes) n plan (if b then left else right)
  Obeys-choice n plan left right true d e = d
  Obeys-choice n plan left right false d e = e
