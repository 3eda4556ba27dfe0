-- ===== src/Client/Operators/Sends.antt =====
-- The rules of Client/Safety for an operator that counts no messages in its errors: those of
-- src/native_smb/FileReader.cpp, FileWriter.cpp, DirectoryWatcher.cpp, DirectoryLister.cpp and
-- RemoteObjectOperator.cpp.
pub mod Transferred
pub mod Listed
pub mod Mutated
pub mod Counted
pub mod Described
use smb_browser.Base.{String, arith, refl, ◌≡◌, ◌≤◌, List, ℕ, [], ◌+◌, ◌∷◌}
use smb_browser.Client.{
  exchange_decoded, exchange_payload, finish, returned, Client, Ending, call, decoded,
  unless_cancelled,
}
use smb_browser.Client.Exchangers.{close}
use smb_browser.Client.Exchangers.Sends.{close-Obeys, created-Obeys, created_payload-Obeys, Any}
use smb_browser.Client.Operators.{naming}
use smb_browser.Client.Safety.Exchanges.{Decodes}
use smb_browser.Client.Safety.Rules.{Ends, Got, Obeys-call, Obeys-decoded, Obeys-unless_cancelled}
use smb_browser.Client.Traces.{Takes, takes_once, ends, once, Obeys, Part}
use smb_browser.Protocol.File.{
  CloseRequestOptions, CreateRequestOptions, CreateResponse, build_create_request,
  decode_create_response,
}
use smb_browser.Wire.{failure, fault, success, DecodeResult, ProtocolError}
use smb_browser.Wire.Reads.{Ensures}
use smb_browser.Protocol.Command

-- All of the plan was sent, in `count` messages.
abbrev pub AllSent : {A : Type 0} → ℕ → ℕ → ℕ → List Part → A → Type 0
AllSent start count n plan a = (n ≡ start + count) × (plan ≡ [])

-- At most `count` messages were sent; the error counts none.
abbrev pub Uncounted : ℕ → ℕ → ℕ → ProtocolError → Type 0
Uncounted start count n e = (n ≤ start + count) × (e.messages_used ≡ 0)

module _ (t s start count : ℕ) {A : Type 0} (Good : ℕ → List Part → A → Type 0)
    (Goes : ℕ → Type 0) where
  pub Obeys-Uncounted_stop :
      (message : String) (n : ℕ) (plan : List Part) (k : Client (Ending A))
      → n ≤ start + count
      → Obeys t s (Ends Good (Uncounted start count) Goes) n plan k
      → Obeys t s (Ends Good (Uncounted start count) Goes) n plan (unless_cancelled message k)
  Obeys-Uncounted_stop message n plan k h d =
      Obeys-unless_cancelled t s _ _ _ message n plan k (h, refl) d

  pub Obeys-Uncounted-decoded :
      {B : Type 0} (n : ℕ) (plan : List Part) (r : DecodeResult B) (k : B → Client (Ending A))
      → n ≤ start + count
      → Ensures Any r
      → ((b : B) → Obeys t s (Ends Good (Uncounted start count) Goes) n plan (k b))
      → Obeys t s (Ends Good (Uncounted start count) Goes) n plan (decoded 0 r k)
  Obeys-Uncounted-decoded n plan r k h inside d =
      Obeys-decoded t s _ _ _ Any 0 n plan r k inside (λ e. (h, refl)) λ b p. d b

  pub Obeys-Uncounted-call :
      {B : Type 0} (P : B → Type 0) (n next : ℕ) (before after : List Part) (m : Client (Ending B))
      (k : B → Client (Ending A))
      → next ≡ n + 1
      → next ≤ start + count
      → Obeys t s (Got P n after) n before m
      → ((b : B) → P b → Obeys t s (Ends Good (Uncounted start count) Goes) next after (k b))
      → Obeys t s (Ends Good (Uncounted start count) Goes) n before (call 0 m k)
  Obeys-Uncounted-call P n next before after m k i h d each =
      Obeys-call t s _ _ _ P 0 n next before after m k i d (λ e. (h, refl))
        (λ e stopped. (omega arith, refl)) each

module _ (t s m count : ℕ) {A : Type 0} (Good : ℕ → List Part → A → Type 0) (Goes : ℕ → Type 0)
    (some_message : 1 ≤ count) where
  -- How an operator opens its object: openObject and openDirectory.
  pub Obeys-opened :
      (message : String) (options : CreateRequestOptions) (plan : List Part)
      (k : CreateResponse → Client (Ending A))
      → ((created : CreateResponse)
          → Obeys t s (Ends Good (Uncounted m count) Goes) (m + 1) plan (k created))
      → Obeys t s (Ends Good (Uncounted m count) Goes) m (once Command.create ∷ plan) (
          unless_cancelled message (
            call 0
              (exchange_decoded 0 (build_create_request options m t s) decode_create_response)
              λ created. unless_cancelled message (k created)))
  Obeys-opened message options plan k d =
      Obeys-Uncounted_stop t s m count Good Goes message m _ _ (omega arith) (
        Obeys-Uncounted-call t s m count Good Goes Any m (m + 1) _ _ _ _ refl (omega arith)
          (created-Obeys t s m 0 options takes_once)
          λ created opened.
            Obeys-Uncounted_stop t s m count Good Goes message (m + 1) _ _ (omega arith)
              (d created))

  -- The same where the operator decodes the response itself.
  pub Obeys-opened_itself :
      (message : String) (options : CreateRequestOptions) (plan : List Part)
      (decode : List ℕ → DecodeResult CreateResponse) (k : CreateResponse → Client (Ending A))
      → Decodes decode
      → ((created : CreateResponse)
          → Obeys t s (Ends Good (Uncounted m count) Goes) (m + 1) plan (k created))
      → Obeys t s (Ends Good (Uncounted m count) Goes) m (once Command.create ∷ plan) (
          unless_cancelled message (
            call 0
              (exchange_payload (build_create_request options m t s))
              λ payload. unless_cancelled message (decoded 0 (decode payload) k)))
  Obeys-opened_itself message options plan decode k inside d =
      Obeys-Uncounted_stop t s m count Good Goes message m _ _ (omega arith) (
        Obeys-Uncounted-call t s m count Good Goes _ m (m + 1) _ _ _ _ refl (omega arith)
          (created_payload-Obeys t s m options takes_once)
          λ payload small.
            Obeys-Uncounted_stop t s m count Good Goes message (m + 1) _ _ (omega arith) (
              Obeys-Uncounted-decoded t s m count Good Goes (m + 1) _ _ _ (omega arith)
                (inside payload small) d))

module _ (t s m count : ℕ) {A : Type 0} (Good : ℕ → List Part → A → Type 0)
    (Goes : ℕ → Type 0) where
  -- How an operator closes its object and ends.
  pub Obeys-closed :
      (options : CloseRequestOptions) (n : ℕ) (before : List Part) (a : A)
      → Takes Command.close before []
      → n + 1 ≤ m + count
      → Good (n + 1) [] a
      → Obeys t s
          (Ends Good (Uncounted m count) Goes)
          n
          before
          (call 0 (close options n t s) λ closed. finish (returned (success a)))
  Obeys-closed options n before a takes h good =
      Obeys-Uncounted-call t s m count Good Goes Any n (n + 1) _ _ _ _ refl h
        (close-Obeys t s n options takes) λ closed shut. ends good

pub naming-Ensures :
    {A : Type 0} (P : A → Type 0) (id : ℕ) (r : DecodeResult A)
    → Ensures P r
    → Ensures P (naming id r)
unfolding naming
naming-Ensures P id (success a) p = p
naming-Ensures P id (failure e) p = p
naming-Ensures P id fault p = p
