-- ===== src/Client/Operators/Sends/Mutated.antt =====
-- The requests of src/native_smb/RemoteObjectOperator.cpp.
use smb_browser.Base.{Bool, String, arith, false, refl, List, ℕ, [], ◌+◌, ◌∷◌}
use smb_browser.Client.Exchangers.Sends.{Any, set_info-Obeys}
use smb_browser.Client.Operators.Objects.{
  close_and_return, create_directory, create_hard_link, create_symbolic_link, delete_object, ioctl,
  mutate, open_object, rename_object,
}
use smb_browser.Client.Operators.Sends.{
  AllSent, Obeys-closed, Obeys-opened, Obeys-Uncounted-call, Uncounted,
}
use smb_browser.Client.Safety.Exchanges.{Decodes-Ensures, exchange_decoded-Obeys}
use smb_browser.Client.Safety.Requests.{Builds-Any, build_ioctl_request-IsMessage}
use smb_browser.Client.Safety.Rules.{Ends, Obeys-with_bytes}
use smb_browser.Client.Traces.{Obeys, once, takes_once}
use smb_browser.Protocol.Ioctl.Safety.{decode_ioctl_response-Ensures}
use smb_browser.Wire.{Built}
use smb_browser.Protocol.Command

module _ (t s m : ℕ) where
  pub create_directory-Obeys :
      (path : List ℕ)
      → Obeys t s
          (Ends (AllSent m 2) (Uncounted m 2) λ n. ⊥)
          m
          (once Command.create ∷ once Command.close ∷ [])
          (create_directory m t s path)
  unfolding create_directory open_object close_and_return
  create_directory-Obeys path =
      Obeys-opened t s m 2 _ _ (omega arith) _ _ _ _ λ created.
        Obeys-closed t s m 2 _ _ _ (m + 1) _ _ takes_once (omega arith) (omega arith, refl)

  mutate-Obeys :
      (message : String) (path : List ℕ) (directory : Bool) (file_info_class : ℕ) (buffer : Built)
      → Obeys t s
          (Ends (AllSent m 3) (Uncounted m 3) λ n. ⊥)
          m
          (once Command.create ∷ once Command.set_info ∷ once Command.close ∷ [])
          (mutate m t s message path directory file_info_class buffer)
  unfolding mutate open_object close_and_return
  mutate-Obeys message path directory file_info_class buffer =
      Obeys-opened t s m 3 _ _ (omega arith) _ _ _ _ λ created.
        Obeys-with_bytes t s _ _ _ Any (m + 1) _ buffer _ (Builds-Any buffer) λ bytes any.
          Obeys-Uncounted-call t s m 3 _ _ Any (m + 1) (m + 2) _ _ _ _ (omega arith) (omega arith)
            (set_info-Obeys t s (m + 1) _ takes_once)
            λ changed found.
              Obeys-closed t s m 3 _ _ _ (m + 2) _ _ takes_once (omega arith) (omega arith, refl)

  pub delete_object-Obeys :
      (path : List ℕ) (directory : Bool)
      → Obeys t s
          (Ends (AllSent m 3) (Uncounted m 3) λ n. ⊥)
          m
          (once Command.create ∷ once Command.set_info ∷ once Command.close ∷ [])
          (delete_object m t s path directory)
  unfolding delete_object
  delete_object-Obeys path directory = mutate-Obeys _ path directory _ _

  pub rename_object-Obeys :
      (from_path to_path : List ℕ) (replace_if_exists : Bool)
      → Obeys t s
          (Ends (AllSent m 3) (Uncounted m 3) λ n. ⊥)
          m
          (once Command.create ∷ once Command.set_info ∷ once Command.close ∷ [])
          (rename_object m t s from_path to_path replace_if_exists)
  unfolding rename_object
  rename_object-Obeys from_path to_path replace_if_exists = mutate-Obeys _ from_path false _ _

  pub create_hard_link-Obeys :
      (existing_path link_path : List ℕ) (replace_if_exists : Bool)
      → Obeys t s
          (Ends (AllSent m 3) (Uncounted m 3) λ n. ⊥)
          m
          (once Command.create ∷ once Command.set_info ∷ once Command.close ∷ [])
          (create_hard_link m t s existing_path link_path replace_if_exists)
  unfolding create_hard_link
  create_hard_link-Obeys existing_path link_path replace_if_exists =
      mutate-Obeys _ existing_path false _ _

  pub create_symbolic_link-Obeys :
      (link_path target_path : List ℕ) (directory relative : Bool)
      → Obeys t s
          (Ends (AllSent m 3) (Uncounted m 3) λ n. ⊥)
          m
          (once Command.create ∷ once Command.ioctl ∷ once Command.close ∷ [])
          (create_symbolic_link m t s link_path target_path directory relative)
  unfolding create_symbolic_link open_object close_and_return ioctl
  create_symbolic_link-Obeys link_path target_path directory relative =
      Obeys-opened t s m 3 _ _ (omega arith) _ _ _ _ λ created.
        Obeys-with_bytes t s _ _ _ Any (m + 1) _ _ _ (Builds-Any _) λ bytes any.
          Obeys-Uncounted-call t s m 3 _ _ Any (m + 1) (m + 2) _ _ _ _ (omega arith) (omega arith)
            (exchange_decoded-Obeys t s (m + 1) Command.ioctl takes_once 0 _ _
              (build_ioctl_request-IsMessage (m + 1) t s _)
              (Decodes-Ensures _ _ λ bytes small. decode_ioctl_response-Ensures bytes))
            λ linked found.
              Obeys-closed t s m 3 _ _ _ (m + 2) _ _ takes_once (omega arith) (omega arith, refl)
