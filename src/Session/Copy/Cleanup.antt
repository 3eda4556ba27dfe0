-- ===== src/Session/Copy/Cleanup.antt =====
-- How copyFileServerSide of src/native_smb/NativeSmbSession.cpp leaves the files that it opened.
use smb_browser.Base.{refl, List, [], ◌≡◌, ℕ, ◌+◌, ◌%◌, ◌^◌}
use smb_browser.Client.{and_then, Client, Ending, returned, thrown, unfinished}
use smb_browser.Client.Exchangers.{close}
use smb_browser.Client.Exchangers.Sends.{Any}
use smb_browser.Client.Operators.Objects.{ioctl}
use smb_browser.Client.Safety.Exchanges.{Decodes-Ensures}
use smb_browser.Client.Safety.Requests.{
  build_ioctl_request-IsMessage, build_close_request-IsMessage,
}
use smb_browser.Client.Traces.{Obeys-and_then, Takes, Obeys, Part, ends}
use smb_browser.Protocol.File.Safety.{decode_close_response-Ensures}
use smb_browser.Protocol.Ioctl.{IoctlRequestOptions, IoctlResponse}
use smb_browser.Protocol.Ioctl.Safety.{decode_ioctl_response-Ensures}
use smb_browser.Session.{then_with, advance, allocated, answered, Reply, Session, continue}
use smb_browser.Session.Copy.{close_cleanup, dropped, either}
use smb_browser.Session.Copy.Answers.{Obeys-exchange_decoded, Obeys-quiet}
use smb_browser.Wire.{DecodeResult, FileId, ProtocolError, failure, fault, success}
use smb_browser.Wire.Reads.{Ensures}
use smb_browser.Protocol.Command

-- Every way to return, with a result or an error, has sent the whole plan, and the next id is the one
-- behind the last that was sent.
abbrev pub Closed : {A : Type 0} → ℕ → List Part → Session → Ending A → Type 0
Closed n plan s (returned (success a)) = (plan ≡ []) × (s.next_message_id ≡ n % 2 ^ 64)
Closed n plan s (returned (failure e)) = (plan ≡ []) × (s.next_message_id ≡ n % 2 ^ 64)
Closed n plan s (returned fault) = ⊥
Closed n plan s (thrown m) = Unit {0}
Closed n plan s unfinished = ⊥

abbrev pub ClosedReply : {A : Type 0} → ℕ → List Part → Reply A → Type 0
ClosedReply n plan r = Closed n plan r.session r.ending

-- A request was sent and answered.
abbrev Answered :
    {A : Type 0} → ℕ → List Part → Session → ℕ → List Part → Session → Ending A → Type 0
Answered n after s' n' plan s (returned (success a)) = (n' ≡ n + 1) × (plan ≡ after) × (s ≡ s')
Answered n after s' n' plan s (returned (failure e)) = (n' ≡ n + 1) × (plan ≡ after) × (s ≡ s')
Answered n after s' n' plan s (returned fault) = ⊥
Answered n after s' n' plan s (thrown m) = Unit {0}
Answered n after s' n' plan s unfinished = ⊥

-- The same for an exchange whose errors are dropped.
abbrev Shut : ℕ → List Part → Session → ℕ → List Part → Session → Ending (Unit {0}) → Type 0
Shut n after s' n' plan s (returned (success a)) = (n' ≡ n + 1) × (plan ≡ after) × (s ≡ s')
Shut n after s' n' plan s (returned (failure e)) = ⊥
Shut n after s' n' plan s (returned fault) = ⊥
Shut n after s' n' plan s (thrown m) = Unit {0}
Shut n after s' n' plan s unfinished = ⊥

either-Closed :
    {A B : Type 0} (t i n : ℕ) (after : List Part) (s' : Session)
    (bad : Session → ProtocolError → Client (Reply B)) (good : Session → A → Client (Reply B))
    → ((e : ProtocolError) → Obeys t i ClosedReply (n + 1) after (bad s' e))
    → ((a : A) → Obeys t i ClosedReply (n + 1) after (good s' a))
    → (n' : ℕ) (plan : List Part) (s : Session) (o : Ending A) → Answered n after s' n' plan s o
    → Obeys t i ClosedReply n' plan (either s o bad good)
unfolding either
either-Closed t i n after s' bad good h k n' plan s (returned (success a)) (e, f, g) =
    rw (e, f, g) (k a)
either-Closed t i n after s' bad good h k n' plan s (returned (failure a)) (e, f, g) =
    rw (e, f, g) (h a)
either-Closed t i n after s' bad good h k n' plan s (returned fault) p = absurd p
either-Closed t i n after s' bad good h k n' plan s (thrown m) p = ends tt
either-Closed t i n after s' bad good h k n' plan s unfinished p = absurd p

continue-Closed :
    {B : Type 0} (t i n : ℕ) (after : List Part) (s' : Session)
    (good : Session → Unit {0} → Client (Reply B))
    → Obeys t i ClosedReply (n + 1) after (good s' tt)
    → (n' : ℕ) (plan : List Part) (s : Session) (o : Ending (Unit {0}))
    → Shut n after s' n' plan s o
    → Obeys t i ClosedReply n' plan (continue s o good)
unfolding continue
continue-Closed t i n after s' good k n' plan s (returned (success a)) (e, f, g) = rw (e, f, g) k
continue-Closed t i n after s' good k n' plan s (returned (failure a)) p = absurd p
continue-Closed t i n after s' good k n' plan s (returned fault) p = absurd p
continue-Closed t i n after s' good k n' plan s (thrown m) p = ends tt
continue-Closed t i n after s' good k n' plan s unfinished p = absurd p

dropped-Shut :
    {A : Type 0} (n : ℕ) (after : List Part) (s : Session) (r : DecodeResult A)
    → Ensures Any r
    → Shut n after s (n + 1) after s (dropped (returned r))
unfolding dropped
dropped-Shut n after s (success a) h = (refl, refl, refl)
dropped-Shut n after s (failure e) h = (refl, refl, refl)
dropped-Shut n after s fault h = h

answered-Shut :
    (n n' : ℕ) (after plan : List Part) (s : Session) (o : Ending (Unit {0}))
    → Shut n after s n' plan s o
    → Shut n after s n' plan (answered s (λ u. u) o).session (answered s (λ u. u) o).ending
unfolding answered
answered-Shut n n' after plan s (returned (success a)) h = h
answered-Shut n n' after plan s (returned (failure e)) h = h
answered-Shut n n' after plan s (returned fault) h = h
answered-Shut n n' after plan s (thrown m) h = h
answered-Shut n n' after plan s unfinished h = h

returned-Answered :
    {A : Type 0} (n : ℕ) (after : List Part) (s : Session) (r : DecodeResult A)
    → Ensures Any r
    → Answered n after s
        (n + 1)
        after
        (answered s (λ a. a) (returned r)).session
        (answered s (λ a. a) (returned r)).ending
unfolding answered
returned-Answered n after s (success a) h = (refl, refl, refl)
returned-Answered n after s (failure e) h = (refl, refl, refl)
returned-Answered n after s fault h = h

module _ (s : Session) (n : ℕ) (same : s.next_message_id % 2 ^ 64 ≡ n % 2 ^ 64) where
  close_cleanup-Shut :
      (f : FileId) {before after : List Part}
      → Takes Command.close before after
      → Obeys s.tree_id s.session_id
          (λ n' plan (r : Reply (Unit {0})). Shut n after (advance s 1) n' plan r.session r.ending)
          n
          before
          (close_cleanup s f)
  unfolding close_cleanup allocated close dropped
  close_cleanup-Shut f {before} {after} takes =
      Obeys-and_then
        (Obeys-quiet s.tree_id s.session_id Command.close s.next_message_id n
          (λ n' plan o. Shut n after (advance s 1) n' plan (advance s 1) o) takes _ _ _ _ same
          (build_close_request-IsMessage s.next_message_id s.tree_id s.session_id _)
          (Decodes-Ensures _ _ λ bytes small. decode_close_response-Ensures bytes)
          (λ r h. ends (dropped-Shut n after (advance s 1) r h)) λ m. ends tt)
        λ n' plan o h. ends (answered-Shut n n' after plan (advance s 1) o h)

  pub Obeys-cleanup :
      {B : Type 0} (f : FileId) {before after : List Part}
      (k : Session → Unit {0} → Client (Reply B))
      → Takes Command.close before after
      → Obeys s.tree_id s.session_id ClosedReply (n + 1) after (k (advance s 1) tt)
      → Obeys s.tree_id s.session_id ClosedReply n before (then_with (close_cleanup s f) k)
  unfolding then_with
  Obeys-cleanup f k takes d = Obeys-and_then (close_cleanup-Shut f takes) λ n' plan r h.
      continue-Closed s.tree_id s.session_id n _ (advance s 1) k d n' plan r.session r.ending h

  pub Obeys-ioctl :
      {B : Type 0} (options : IoctlRequestOptions) {before after : List Part}
      (bad : Session → ProtocolError → Client (Reply B))
      (good : Session → IoctlResponse → Client (Reply B))
      → Takes Command.ioctl before after
      → ((e : ProtocolError)
          → Obeys s.tree_id s.session_id ClosedReply (n + 1) after (bad (advance s 1) e))
      → ((a : IoctlResponse)
          → Obeys s.tree_id s.session_id ClosedReply (n + 1) after (good (advance s 1) a))
      → Obeys s.tree_id s.session_id ClosedReply n before (
          and_then
            (allocated s 1 (λ r. r) λ m t i. ioctl m t i options)
            λ r. either r.session r.ending bad good)
  unfolding allocated ioctl answered
  Obeys-ioctl options {before} {after} bad good takes h k =
      Obeys-and_then
        (Obeys-exchange_decoded s.tree_id s.session_id Command.ioctl s.next_message_id n
          (λ n' plan (r : Reply IoctlResponse).
            Answered n after (advance s 1) n' plan r.session r.ending)
          takes _ _ _ same
          (build_ioctl_request-IsMessage s.next_message_id s.tree_id s.session_id options)
          (Decodes-Ensures _ _ λ bytes small. decode_ioctl_response-Ensures bytes)
          (λ r inside. ends (returned-Answered n after (advance s 1) r inside)) λ m. ends tt)
        λ n' plan r p.
          either-Closed s.tree_id s.session_id n after (advance s 1) bad good h k n' plan r.session
            r.ending p
