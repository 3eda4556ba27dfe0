-- ===== src/Session/Fresh.antt =====
-- The message ids of src/native_smb/NativeSmbSession.cpp: where an operation leaves m_nextMessageId.
pub mod Allocated
pub mod Counted
use smb_browser.Base.{List, [], ap, refl, sym, ◌≡◌, ◌≤◌, ℕ, ◌+◌, ◌%◌, ◌^◌}
use smb_browser.Client.{Client, Ending, returned, thrown, unfinished}
use smb_browser.Client.Operators.Sends.{Uncounted}
use smb_browser.Client.Safety.Rules.{Ends}
use smb_browser.Client.Traces.{Obeys, Obeys-and_then, Part, ends}
use smb_browser.Session.{
  handed_on, Reply, Session, advance, allocated, answered, counted_by, settle,
}
use smb_browser.Wire.{ProtocolError, failed, failure, fault, success}

-- What an operation leaves: a result and the session, or an error and the session.
abbrev pub Left :
    {A : Type 0}
    → (ℕ → List Part → Session → Type 0)
    → (ℕ → Session → ProtocolError → Type 0)
    → ℕ
    → List Part
    → Session
    → Ending A
    → Type 0
Left Good Bad n plan s (returned (success a)) = Good n plan s
Left Good Bad n plan s (returned (failure e)) = Bad n s e
Left Good Bad n plan s (returned fault) = ⊥
Left Good Bad n plan s (thrown m) = Unit {0}
Left Good Bad n plan s unfinished = Unit {0}

abbrev pub Leaves :
    {A : Type 0}
    → (ℕ → List Part → Session → Type 0)
    → (ℕ → Session → ProtocolError → Type 0)
    → ℕ
    → List Part
    → Reply A
    → Type 0
Leaves Good Bad n plan r = Left Good Bad n plan r.session r.ending

-- The plan is done, and the next id is the one behind the last that was sent.
abbrev pub Next : ℕ → List Part → Session → Type 0
Next n plan s = (plan ≡ []) × (s.next_message_id ≡ n % 2 ^ 64)

-- The ids that were sent lie below `start + count`, which is the next one.
abbrev pub Below : ℕ → ℕ → ℕ → Session → ProtocolError → Type 0
Below start count n s e = (n ≤ start + count) × (s.next_message_id ≡ (start + count) % 2 ^ 64)

module _ {A B : Type 0} (s : Session) (plan : List Part) where
  pub allocated-Leaves :
      (Good : ℕ → List Part → A → Type 0) (Goes : ℕ → Type 0) (count : ℕ) (f : A → B)
      (m : ℕ → ℕ → ℕ → Client (Ending A))
      → Obeys s.tree_id s.session_id
          (Ends Good (Uncounted s.next_message_id count) Goes)
          s.next_message_id
          plan
          (m s.next_message_id s.tree_id s.session_id)
      → ((n : ℕ) (rest : List Part) (a : A)
          → Good n rest a
          → (n ≡ s.next_message_id + count) × (rest ≡ []))
      → Obeys s.tree_id s.session_id
          (Leaves Next (Below s.next_message_id count))
          s.next_message_id
          plan
          (allocated s count f m)
  unfolding allocated advance answered
  allocated-Leaves Good Goes count f m d good =
      Obeys-and_then d λ n rest o h. ends (settled n rest o h)
    where
      settled :
          (n : ℕ) (rest : List Part) (o : Ending A)
          → Ends Good (Uncounted s.next_message_id count) Goes n rest o
          → Leaves Next (Below s.next_message_id count) n rest (answered (advance s count) f o)
      settled n rest (returned (success a)) h =
          ((good n rest a h).1, ap (λ (i : ℕ). i % 2 ^ 64) (sym (good n rest a h).0))
      settled n rest (returned (failure e)) h = (h.0, refl)
      settled n rest (returned fault) h = h
      settled n rest (thrown e) h = tt
      settled n rest unfinished h = tt

  pub counted_by-Leaves :
      (Good : ℕ → List Part → A → Type 0) (Fail : ℕ → ProtocolError → Type 0) (Goes : ℕ → Type 0)
      (Bad : ℕ → Session → ProtocolError → Type 0) (used : A → ℕ) (failed : ProtocolError → ℕ)
      (f : A → B) (m : Client (Ending A))
      → Obeys s.tree_id s.session_id (Ends Good Fail Goes) s.next_message_id plan m
      → ((n : ℕ) (rest : List Part) (a : A)
          → Good n rest a
          → (n ≡ s.next_message_id + used a) × (rest ≡ []))
      → ((n : ℕ) (e : ProtocolError) → Fail n e → Bad n (advance s (failed e)) (handed_on e))
      → Obeys s.tree_id s.session_id
          (Leaves Next Bad)
          s.next_message_id
          plan
          (counted_by s used failed f m)
  unfolding counted_by settle advance
  counted_by-Leaves Good Fail Goes Bad used failed f m d good bad =
      Obeys-and_then d λ n rest o h. ends (settled n rest o h)
    where
      settled :
          (n : ℕ) (rest : List Part) (o : Ending A)
          → Ends Good Fail Goes n rest o
          → Leaves Next Bad n rest (settle s used failed f o)
      settled n rest (returned (success a)) h =
          ((good n rest a h).1, ap (λ (i : ℕ). i % 2 ^ 64) (sym (good n rest a h).0))
      settled n rest (returned (failure e)) h = bad n e h
      settled n rest (returned fault) h = h
      settled n rest (thrown e) h = tt
      settled n rest unfinished h = tt
