-- ===== src/Queue.antt =====
-- The operation queue: src/application/OperationQueue.cpp, with the errors of src/core/Error.h that
-- it stores. The map from ids to operations, and the calls that run under its mutex. An id is a
-- number, given to `enqueue`. A token is shared by the map and the worker, and its entry is never
-- taken out of the map, so its flag is a field of the entry.
pub mod Map
pub mod Worker
pub mod Runs
pub mod Cancels
mod Examples
use smb_browser.Base.{
  none, Bool, List, Option, String, [], false, if◌then◌else◌, some, true, ℕ, ◌==◌, ◌∷◌,
}
use smb_browser.Errors.{AppError, from_code, general, no_app_error, operation_cancelled, unknown}

-- cancelledError
unfoldable pub cancelled_error : AppError
cancelled_error = from_code operation_cancelled general "Operation cancelled." false

unfoldable pub empty_callback_error : AppError
empty_callback_error = from_code unknown general "Operation callback is empty." false

pub data OperationState : Type 0 where
  queued running completed failed cancelled : OperationState

pub record TransferProgress : Type 0 where
  pub bytes_transferred : ℕ
  pub total_bytes : ℕ

pub record OperationData : Type 0 where
  pub name : String
  pub state : OperationState
  pub progress : TransferProgress
  pub error : AppError
  pub cancellation_requested : Bool

-- `m_operations`, newest first.
abbrev pub Operations : Type 0
Operations = List (ℕ × OperationData)

-- `m_operations.value(id)`, where `none` is the null pointer.
unfoldable pub value : Operations → ℕ → Option OperationData
value [] id = none
value ((k, d) ∷ q) id = if k == id then some d else value q id

-- The entry of `id` is changed in place, if there is one.
unfoldable pub update : Operations → ℕ → (OperationData → OperationData) → Operations
update [] id f = []
update ((k, d) ∷ q) id f = if k == id then (k, f d) ∷ q else (k, d) ∷ update q id f

-- The entry of a new operation.
abbrev pub queued_operation : String → OperationData
queued_operation name = record {
  name = name;
  state = queued;
  progress = record { bytes_transferred = 0; total_bytes = 0 };
  error = no_app_error;
  cancellation_requested = false;
}

-- The part of `enqueue` under the mutex, for the id that was created.
unfoldable pub enqueue : Operations → ℕ → String → Operations
enqueue q id name = (id, queued_operation name) ∷ q

unfoldable pub cancel : Operations → ℕ → Bool × Operations
cancel q id = elim (value q id) [
  | none ↦ (false, q)
  | some d ↦ (true, update q id (λ d. record d { cancellation_requested = true }))
]

-- The destructor's loop under the mutex, which cancels every operation.
unfoldable pub cancel_all : Operations → Operations
cancel_all [] = []
cancel_all ((k, d) ∷ q) = (k, record d { cancellation_requested = true }) ∷ cancel_all q

unfoldable pub set_state : Operations → ℕ → OperationState → AppError → Operations
set_state q id state error = update q id (λ d. record d { state = state; error = error })

unfoldable pub set_progress : Operations → ℕ → TransferProgress → Operations
set_progress q id progress = update q id (λ d. record d { progress = progress })
