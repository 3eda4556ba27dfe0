-- ===== src/Client/Operators/Sends/Transferred.antt =====
-- The requests of src/native_smb/FileReader.cpp, FileWriter.cpp and DirectoryWatcher.cpp.
use smb_browser.Base.{Bool, arith, refl, ◌≡◌, List, ℕ, [], ◌+◌, ◌∷◌}
use smb_browser.Client.Exchangers.Sends.{Any, create-Decodes, read-Obeys, wait-Obeys, write-Obeys}
use smb_browser.Client.Operators.{naming}
use smb_browser.Client.Operators.Sends.{
  AllSent, Obeys-closed, Obeys-opened, Obeys-opened_itself, Obeys-Uncounted-call, Uncounted,
  naming-Ensures,
}
use smb_browser.Client.Operators.Transfers.{
  FileWriteResult, read_once, wait_once, write_once, write_opened,
}
use smb_browser.Client.Safety.Rules.{Ends}
use smb_browser.Client.Traces.{takes_once, Obeys, Part, once}
use smb_browser.Protocol.File.{decode_create_response}
use smb_browser.Wire.{FileId}
use smb_browser.Protocol.Command

-- A writer with no bytes sends no WRITE.
abbrev pub write_plan : List ℕ → List Part
write_plan [] = once Command.close ∷ []
write_plan (b ∷ payload) = once Command.write ∷ once Command.close ∷ []

-- The messages sent are those that the result counts.
abbrev pub CountedWrite : ℕ → ℕ → List Part → FileWriteResult → Type 0
CountedWrite m n plan r = (n ≡ m + r.messages_used) × (plan ≡ [])

module _ (t s m : ℕ) where
  pub read_once-Obeys :
      (path : List ℕ) (size offset : ℕ)
      → Obeys t s
          (Ends (AllSent m 3) (Uncounted m 3) λ n. ⊥)
          m
          (once Command.create ∷ once Command.read ∷ once Command.close ∷ [])
          (read_once path size offset m t s)
  unfolding read_once
  read_once-Obeys path size offset =
      Obeys-opened_itself t s m 3 _ _ (omega arith) _ _ _
        (λ payload. naming m (decode_create_response payload)) _
        (λ payload small. naming-Ensures Any m _ (create-Decodes payload small))
        λ created.
          Obeys-Uncounted-call t s m 3 _ _ Any (m + 1) (m + 2) _ _ _ _ (omega arith) (omega arith)
            (read-Obeys t s (m + 1) _ takes_once)
            λ response found.
              Obeys-closed t s m 3 _ _ _ (m + 2) _ _ takes_once (omega arith) (omega arith, refl)

  write_opened-Obeys :
      (path : List ℕ) (f : FileId) (payload : List ℕ) (offset : ℕ)
      → Obeys t s
          (Ends (CountedWrite m) (Uncounted m 3) λ n. ⊥)
          (m + 1)
          (write_plan payload)
          (write_opened path f payload offset m t s)
  unfolding write_opened
  write_opened-Obeys path f [] offset =
      Obeys-closed t s m 3 _ _ _ (m + 1) _ _ takes_once (omega arith) (omega arith, refl)
  write_opened-Obeys path f (b ∷ payload) offset =
      Obeys-Uncounted-call t s m 3 _ _ Any (m + 1) (m + 2) _ _ _ _ (omega arith) (omega arith)
        (write-Obeys t s (m + 1) _ takes_once)
        λ response found.
          Obeys-closed t s m 3 _ _ _ (m + 2) _ _ takes_once (omega arith) (omega arith, refl)

  pub write_once-Obeys :
      (path payload : List ℕ) (offset : ℕ)
      → Obeys t s
          (Ends (CountedWrite m) (Uncounted m 3) λ n. ⊥)
          m
          (once Command.create ∷ write_plan payload)
          (write_once path payload offset m t s)
  unfolding write_once
  write_once-Obeys path payload offset =
      Obeys-opened_itself t s m 3 _ _ (omega arith) _ _ _ decode_create_response _ create-Decodes
        λ created. write_opened-Obeys path created.file_id payload offset

  pub wait_once-Obeys :
      (path : List ℕ) (completion_filter : ℕ) (watch_tree : Bool) (output_buffer_length : ℕ)
      → Obeys t s
          (Ends (AllSent m 3) (Uncounted m 3) λ n. ⊥)
          m
          (once Command.create ∷ once Command.change_notify ∷ once Command.close ∷ [])
          (wait_once path completion_filter watch_tree output_buffer_length m t s)
  unfolding wait_once
  wait_once-Obeys path completion_filter watch_tree output_buffer_length =
      Obeys-opened t s m 3 _ _ (omega arith) _ _ _ _ λ created.
        Obeys-Uncounted-call t s m 3 _ _ Any (m + 1) (m + 2) _ _ _ _ (omega arith) (omega arith)
          (wait-Obeys t s (m + 1) _ takes_once)
          λ notified found.
            Obeys-closed t s m 3 _ _ _ (m + 2) _ _ takes_once (omega arith) (omega arith, refl)
