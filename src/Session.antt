-- ===== src/Session.antt =====
-- src/native_smb/NativeSmbSession.cpp: a session hands out message ids and runs one operation after
-- the other. An operation takes the session, and its reply holds the session that it leaves.
pub mod Files
pub mod Objects
pub mod Wildcard
pub mod Delete
pub mod Copy
pub mod Fresh
mod Examples
use smb_browser.Base.{String, if◌then◌else◌, ◌==◌, ℕ, ◌+◌, ◌%◌, ◌^◌}
use smb_browser.Client.{Client, Ending, and_then, finish, poll, returned, thrown, unfinished}
use smb_browser.Wire.{ErrorCode, ProtocolError, cancelled, failed, failure, fault, success}

-- m_treeId, m_sessionId and m_nextMessageId.
pub record Session : Type 0 where
  pub tree_id : ℕ
  pub session_id : ℕ
  pub next_message_id : ℕ

-- What an operation leaves: the session, and the result or the exception.
pub record Reply {ℓ} (A : Type ℓ) : Type ℓ where
  pub session : Session
  pub ending : Ending A

-- The constructor: NativeSmbSessionConfig names the first message id.
unfoldable pub new_session : ℕ → ℕ → ℕ → Session
new_session tree_id session_id first_message_id = record {
  tree_id = tree_id;
  session_id = session_id;
  next_message_id = if first_message_id == 0 then 1 else first_message_id;
}

-- `m_nextMessageId += count`; allocateMessageIds returns the number that stood there before.
unfoldable pub advance : Session → ℕ → Session
advance s count = record s { next_message_id = (s.next_message_id + count) % 2 ^ 64 }

-- `result.error` handed on by the session's failure functions, which count no messages.
unfoldable pub handed_on : ProtocolError → ProtocolError
handed_on e = record e { messages_used = 0 }

-- How a result becomes the session's reply: `used` messages with a value, `failed` with an error. An
-- exception passes before the id is moved.
unfoldable pub settle {ℓ κ} :
    {A : Type ℓ} {B : Type κ}
    → Session
    → (A → ℕ)
    → (ProtocolError → ℕ)
    → (A → B)
    → Ending A
    → Reply B
settle s used failed f (returned (success a)) = record {
  session = advance s (used a);
  ending = returned (success (f a));
}
settle s used failed f (returned (failure e)) = record {
  session = advance s (failed e);
  ending = returned (failure (handed_on e));
}
settle s used failed f (returned fault) = record { session = s; ending = returned fault }
settle s used failed f (thrown m) = record { session = s; ending = thrown m }
settle s used failed f unfinished = record { session = s; ending = unfinished }

-- The operations that move the id behind the operator: listDirectory, writeFileOnce, statObject and
-- those of RemoteMetadataOperator.
unfoldable pub counted_by {ℓ κ} :
    {A : Type ℓ} {B : Type κ}
    → Session
    → (A → ℕ)
    → (ProtocolError → ℕ)
    → (A → B)
    → Client (Ending A)
    → Client (Reply B)
counted_by s used failed f m = and_then m λ o. finish (settle s used failed f o)

-- The reply of an operator whose ids were allocated before.
unfoldable pub answered {ℓ κ} : {A : Type ℓ} {B : Type κ} → Session → (A → B) → Ending A → Reply B
answered s f (returned (success a)) = record { session = s; ending = returned (success (f a)) }
answered s f (returned (failure e)) = record {
  session = s;
  ending = returned (failure (handed_on e));
}
answered s f (returned fault) = record { session = s; ending = returned fault }
answered s f (thrown m) = record { session = s; ending = thrown m }
answered s f unfinished = record { session = s; ending = unfinished }

-- `const auto messageId = allocateMessageIds(count); const auto result = …(messageId, …);`
unfoldable pub allocated {ℓ κ} :
    {A : Type ℓ} {B : Type κ}
    → Session
    → ℕ
    → (A → B)
    → (ℕ → ℕ → ℕ → Client (Ending A))
    → Client (Reply B)
allocated s count f m =
    and_then (m s.next_message_id s.tree_id s.session_id)
      λ o. finish (answered (advance s count) f o)

-- A result with no exchange.
unfoldable pub refuse {ℓ} : {A : Type ℓ} → Session → ErrorCode → String → Client (Reply A)
refuse s code message = finish (record { session = s; ending = returned (failed code message) })

-- `if (!result.ok) return …FailureFrom(result.error);` for an operation of the session that another
-- one calls.
unfoldable pub continue {ℓ κ} :
    {A : Type ℓ} {B : Type κ}
    → Session
    → Ending A
    → (Session → A → Client (Reply B))
    → Client (Reply B)
continue s (returned (success a)) k = k s a
continue s (returned (failure e)) k =
    finish (record { session = s; ending = returned (failure (handed_on e)) })
continue s (returned fault) k = finish (record { session = s; ending = returned fault })
continue s (thrown m) k = finish (record { session = s; ending = thrown m })
continue s unfinished k = finish (record { session = s; ending = unfinished })

unfoldable pub then_with {ℓ κ} :
    {A : Type ℓ} {B : Type κ}
    → Client (Reply A)
    → (Session → A → Client (Reply B))
    → Client (Reply B)
then_with m k = and_then m λ r. continue r.session r.ending k

-- `if (isCancelled(context)) return mutationFailure(ErrorCode::Cancelled, message);`
unfoldable pub unless_stopped {ℓ} :
    {A : Type ℓ} → Session → String → Client (Reply A) → Client (Reply A)
unless_stopped s message k = poll λ b. if b then refuse s cancelled message else k
