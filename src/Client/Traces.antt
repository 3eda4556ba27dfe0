-- ===== src/Client/Traces.antt =====
-- What a conversation of src/native_smb does, whatever the transport answers and whenever the caller
-- cancels: the requests that it sends, in their order, and how it ends.
use smb_browser.Base.{Bool, length, ◌%◌, ◌<◌, ◌^◌, ◌≡◌, List, ℕ, ◌+◌, ◌∷◌}
use smb_browser.Client.{report, Client, and_then, finish, poll, send}
use smb_browser.Wire.{DecodeResult}
use smb_browser.Wire.Reads.{Ensures, u16_of, u32_of, u64_of}

-- A part of a plan: one request of a command, or any number of them.
pub data Part : Type 0 where
  once many : ℕ → Part

-- `Takes c before after`: the plan `before` allows a request of the command `c` next, and `after` is
-- what is left of it then.
pub data Takes (c : ℕ) : List Part → List Part → Type 0 where
  takes_once : {plan : List Part} → Takes c (once c ∷ plan) plan
  takes_again : {plan : List Part} → Takes c (many c ∷ plan) (many c ∷ plan)
  takes_later :
      {d : ℕ} {before after : List Part} → Takes c before after → Takes c (many d ∷ before) after

-- A frame that holds a message with this command, tree, session and message id, each cut to the
-- width of its field.
pub record IsFrame (tree_id session_id command message_id : ℕ) (frame : List ℕ) : Type 0 where
  pub of_command : u16_of frame 16 ≡ command % 2 ^ 16
  pub of_message : u64_of frame 28 ≡ message_id % 2 ^ 64
  pub of_tree : u32_of frame 40 ≡ tree_id % 2 ^ 32
  pub of_session : u64_of frame 44 ≡ session_id % 2 ^ 64

-- An answer of the transport: an error, or a frame that a 32-bit size measures.
abbrev pub IsAnswer : DecodeResult (List ℕ) → Type 0
IsAnswer answer = Ensures (λ bytes. length bytes < 2 ^ 32) answer

-- `Obeys t s Q n plan c`: from the message id `n` on, `c` sends the requests of the plan, each with
-- the next message id, on the tree `t` in the session `s`, and ends so that `Q` holds of the next
-- message id, what is left of the plan, and the result.
pub data Obeys (t s : ℕ) {A : Type 0} (Q : ℕ → List Part → A → Type 0)
    : ℕ → List Part → Client A → Type 0 where
  ends : {n : ℕ} {plan : List Part} {a : A} → Q n plan a → Obeys t s Q n plan (finish a)
  asks :
      {n : ℕ} {plan : List Part} {f : Bool → Client A}
      → ((b : Bool) → Obeys t s Q n plan (f b))
      → Obeys t s Q n plan (poll f)
  reports :
      {n a b : ℕ} {plan : List Part} {m : Client A}
      → Obeys t s Q n plan m
      → Obeys t s Q n plan (report a b m)
  sends :
      {n c : ℕ} {before after : List Part} {frame : List ℕ} {f : DecodeResult (List ℕ) → Client A}
      → IsFrame t s c n frame
      → Takes c before after
      → ((answer : DecodeResult (List ℕ)) → IsAnswer answer → Obeys t s Q (n + 1) after (f answer))
      → Obeys t s Q n before (send frame f)

module _ {t s : ℕ} {A B : Type 0} {P : ℕ → List Part → A → Type 0}
    {Q : ℕ → List Part → B → Type 0} where
  pub Obeys-and_then :
      {n : ℕ} {plan : List Part} {m : Client A} {k : A → Client B}
      → Obeys t s P n plan m
      → ((n : ℕ) (plan : List Part) (a : A) → P n plan a → Obeys t s Q n plan (k a))
      → Obeys t s Q n plan (and_then m k)
  unfolding and_then
  Obeys-and_then (ends {n} {plan} {a} p) h = h n plan a p
  Obeys-and_then (asks f) h = asks λ b. Obeys-and_then (f b) h
  Obeys-and_then (reports d) h = reports (Obeys-and_then d h)
  Obeys-and_then (sends i p f) h = sends i p λ answer ok. Obeys-and_then (f answer ok) h
