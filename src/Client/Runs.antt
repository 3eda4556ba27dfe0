-- ===== src/Client/Runs.antt =====
-- A conversation of src/native_smb run against a transport and a caller: `answer i frame` is what
-- `Transport::exchange` of Transport.h returns for the i-th frame, `stop j` what the j-th test for a
-- cancellation says.
pub mod Meaning
use smb_browser.Base.{Bool, List, ℕ, [], ◌+◌, ◌∷◌}
use smb_browser.Client.{Client, finish, poll, report, send}
use smb_browser.Wire.{DecodeResult}

-- The frames that were sent, in their order, and the result.
pub record Run {ℓ} (A : Type ℓ) : Type ℓ where
  pub frames : List (List ℕ)
  pub result : A

module _ (answer : ℕ → List ℕ → DecodeResult (List ℕ)) (stop : ℕ → Bool) where
  unfoldable pub run {ℓ} : {A : Type ℓ} → ℕ → ℕ → Client A → Run A
  run i j (finish a) = record { frames = []; result = a }
  run i j (send frame f) =
      let rest = run (i + 1) j (f (answer i frame)) in
      record { frames = frame ∷ rest.frames; result = rest.result }
  run i j (poll f) = run i (j + 1) (f (stop j))
  run i j (report a b m) = run i j m
