-- ===== src/Queue/Worker.antt =====
-- The worker of one operation: the LambdaRunnable that `enqueue` of
-- src/application/OperationQueue.cpp starts. It runs in a thread of the pool, while other threads
-- cancel operations and change the entries of others; each call that takes the mutex is one step.
use smb_browser.Base.{Bool, String, false, if◌then◌else◌, none, some, true, ℕ, ◌&&◌, ◌||◌, ◌≡◌, ◌≢◌}
use smb_browser.Errors.{AppError, has_error, no_app_error, operation_cancelled}
use smb_browser.Queue.{
  OperationState, Operations, TransferProgress, cancel, cancel_all, cancelled, failed,
  cancelled_error, completed, empty_callback_error, enqueue, running, set_progress, set_state,
  value,
}

-- What the callback returned: an error, or `no_code` for success.
abbrev pub Outcome : Type 0
Outcome = AppError

-- Where the worker stands.
pub data Worker : Type 0 where
  waiting entering inside finished : Worker
  returned : Outcome → Worker
  leaving : OperationState → AppError → Worker

pub record System : Type 0 where
  pub operations : Operations
  pub worker : Worker

-- `token->isCancellationRequested()`
unfoldable pub is_cancellation_requested : Operations → ℕ → Bool
is_cancellation_requested q id = elim (value q id) [
  | none ↦ false
  | some d ↦ d.cancellation_requested
]

-- `result.error().code == ErrorCode::OperationCancelled`
unfoldable pub reports_cancellation : Outcome → Bool
reports_cancellation r = elim r.code [ operation_cancelled ↦ true | _ ↦ false ]

-- The tests behind the callback: was cancellation requested, did the result have an error, and did
-- that error report a cancellation?
unfoldable pub decide_on : Bool → Bool → Bool → Outcome → OperationState × AppError
decide_on requested bad reported r =
    if requested || (bad && reported)
    then (cancelled, if bad then r else cancelled_error)
    else if bad
    then (failed, r)
    else (completed, no_app_error)

-- The state and the error with which the worker leaves.
unfoldable pub decision : Bool → Outcome → OperationState × AppError
decision requested r = decide_on requested (has_error r) (reports_cancellation r) r

-- A step of the worker of `id`, whose callback is empty or not, or of another thread.
pub data Step (has_callback : Bool) (id : ℕ) : System → System → Type 0 where
  request_cancel :
      (q : Operations) (w : Worker) (k : ℕ)
      → Step has_callback id
          (record { operations = q; worker = w })
          (record { operations = (cancel q k).1; worker = w })
  -- The destructor, which then waits for the workers.
  destroy :
      (q : Operations) (w : Worker)
      → Step has_callback id
          (record { operations = q; worker = w })
          (record { operations = cancel_all q; worker = w })
  other_state :
      (q : Operations) (w : Worker) (k : ℕ) (s : OperationState) (e : AppError)
      → k ≢ id
      → Step has_callback id
          (record { operations = q; worker = w })
          (record { operations = set_state q k s e; worker = w })
  other_progress :
      (q : Operations) (w : Worker) (k : ℕ) (p : TransferProgress)
      → k ≢ id
      → Step has_callback id
          (record { operations = q; worker = w })
          (record { operations = set_progress q k p; worker = w })
  other_enqueue :
      (q : Operations) (w : Worker) (k : ℕ) (name : String)
      → k ≢ id
      → Step has_callback id
          (record { operations = q; worker = w })
          (record { operations = enqueue q k name; worker = w })
  refuse_empty :
      (q : Operations)
      → has_callback ≡ false
      → Step has_callback id
          (record { operations = q; worker = waiting })
          (record { operations = set_state q id failed empty_callback_error; worker = finished })
  skip :
      (q : Operations)
      → has_callback ≡ true
      → is_cancellation_requested q id ≡ true
      → Step has_callback id
          (record { operations = q; worker = waiting })
          (record { operations = q; worker = leaving cancelled cancelled_error })
  enter :
      (q : Operations)
      → has_callback ≡ true
      → is_cancellation_requested q id ≡ false
      → Step has_callback id
          (record { operations = q; worker = waiting })
          (record { operations = q; worker = entering })
  begin :
      (q : Operations)
      → Step has_callback id
          (record { operations = q; worker = entering })
          (record { operations = set_state q id running no_app_error; worker = inside })
  report :
      (q : Operations) (p : TransferProgress)
      → Step has_callback id
          (record { operations = q; worker = inside })
          (record { operations = set_progress q id p; worker = inside })
  callback_returns :
      (q : Operations) (r : Outcome)
      → Step has_callback id
          (record { operations = q; worker = inside })
          (record { operations = q; worker = returned r })
  decide :
      (q : Operations) (r : Outcome)
      → Step has_callback id
          (record { operations = q; worker = returned r })
          (record {
            operations = q;
            worker =
                leaving
                  (decision (is_cancellation_requested q id) r).0
                  (decision (is_cancellation_requested q id) r).1;
          })
  leave :
      (q : Operations) (s : OperationState) (e : AppError)
      → Step has_callback id
          (record { operations = q; worker = leaving s e })
          (record { operations = set_state q id s e; worker = finished })

-- Any number of steps.
pub data Run (has_callback : Bool) (id : ℕ) : System → System → Type 0 where
  done : {s : System} → Run has_callback id s s
  then_step :
      {s t u : System}
      → Run has_callback id s t
      → Step has_callback id t u
      → Run has_callback id s u
