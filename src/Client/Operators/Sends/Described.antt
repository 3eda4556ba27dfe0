-- ===== src/Client/Operators/Sends/Described.antt =====
-- The requests of src/native_smb/RemoteMetadataOperator.cpp.
use smb_browser.Base.{String, arith, refl, ◌≡◌, List, ℕ, [], ◌+◌, ◌∷◌}
use smb_browser.Client.{Client, Ending, call, unless_cancelled}
use smb_browser.Client.Exchangers.Sends.{
  Any, close-Obeys, created-Obeys, query_info-Obeys, set_info-Obeys,
}
use smb_browser.Client.Operators.Metadata.{
  RemoteMetadataMutationResult, close_mutation, list_extended_attributes, open_counted,
  query_metadata, query_security_descriptor, remove_extended_attribute, set_basic_information,
  set_extended_attributes, set_metadata, set_security_descriptor,
}
use smb_browser.Client.Operators.Sends.Counted.{
  CountedFailure, Obeys-counted_call, Obeys-counted_decoded, Obeys-counted_stop,
}
use smb_browser.Client.Safety.Requests.{Builds-Any}
use smb_browser.Client.Safety.Rules.{Ends, Obeys-with_bytes}
use smb_browser.Client.Traces.{Obeys, Part, ends, once, takes_once}
use smb_browser.Protocol.Ea.{FileFullEaInformation, decode_file_full_ea_information}
use smb_browser.Protocol.Ea.Walk.{decode_file_full_ea_information-Ensures}
use smb_browser.Protocol.File.{CreateRequestOptions, CreateResponse}
use smb_browser.Protocol.Info.{FileBasicInformation}
use smb_browser.Wire.{Built, DecodeResult, FileId, success}
use smb_browser.Wire.Reads.{Ensures, Ensures-weaken}
use smb_browser.Protocol.Command

-- Every message was sent and counted.
abbrev pub MutationSent : ℕ → ℕ → List Part → RemoteMetadataMutationResult → Type 0
MutationSent m n plan r = (n ≡ m + r.messages_used) × (plan ≡ [])

-- CREATE, SET_INFO, CLOSE.
abbrev pub set_plan : List Part
set_plan = once Command.create ∷ once Command.set_info ∷ once Command.close ∷ []

-- CREATE, QUERY_INFO, CLOSE.
abbrev pub query_plan : List Part
query_plan = once Command.create ∷ once Command.query_info ∷ once Command.close ∷ []

module _ (t s m : ℕ) where
  -- How an operator opens its object.
  Obeys-counted_opened :
      {A : Type 0} (Good : ℕ → List Part → A → Type 0) (message : String)
      (options : CreateRequestOptions) (plan : List Part) (k : CreateResponse → Client (Ending A))
      → ((created : CreateResponse)
          → Obeys t s (Ends Good (CountedFailure m 3) λ n. ⊥) (m + 1) plan (k created))
      → Obeys t s (Ends Good (CountedFailure m 3) λ n. ⊥) m (once Command.create ∷ plan) (
          unless_cancelled message
            (call 1 (open_counted m t s options) λ created. unless_cancelled message (k created)))
  unfolding open_counted
  Obeys-counted_opened Good message options plan k d =
      Obeys-counted_stop t s m 3 Good message m _ _ (omega arith) (
        Obeys-counted_call t s m 3 Good Any 1 m _ _ _ _ refl (omega arith)
          (created-Obeys t s m 1 options takes_once)
          λ created opened.
            Obeys-counted_stop t s m 3 Good message (m + 1) _ _ (omega arith) (d created))

  pub set_metadata-Obeys :
      (path : List ℕ) (access info_type file_info_class additional : ℕ) (buffer : Built)
      → Obeys t s
          (Ends (MutationSent m) (CountedFailure m 3) λ n. ⊥)
          m
          set_plan
          (set_metadata m t s path access info_type file_info_class additional buffer)
  unfolding set_metadata close_mutation
  set_metadata-Obeys path access info_type file_info_class additional buffer =
      Obeys-counted_opened _ _ _ _ _ λ created.
        Obeys-with_bytes t s _ _ _ _ (m + 1) _ buffer _ (Builds-Any buffer) λ bytes any.
          Obeys-counted_call t s m 3 _ Any 2 (m + 1) _ _ _ _ (omega arith) (omega arith)
            (set_info-Obeys t s (m + 1) _ takes_once)
            λ changed found.
              Obeys-counted_call t s m 3 _ Any 3 (m + 2) _ _ _ _ (omega arith) (omega arith)
                (close-Obeys t s (m + 2) _ takes_once) λ closed shut. ends (refl, refl)

  query_metadata-Obeys :
      {A B : Type 0} (Good : ℕ → List Part → B → Type 0) (path : List ℕ) (message : String)
      (access info_type file_info_class additional : ℕ) (decode : List ℕ → DecodeResult A)
      (result : FileId → A → B)
      → ((bytes : List ℕ) → Ensures Any (decode bytes))
      → ((f : FileId) (a : A) → Good (m + 3) [] (result f a))
      → Obeys t s (Ends Good (CountedFailure m 3) λ n. ⊥) m query_plan (
          query_metadata m t s path message access info_type file_info_class additional decode
            result)
  unfolding query_metadata
  query_metadata-Obeys Good path message access info_type file_info_class additional decode result
        inside good =
      Obeys-counted_opened Good _ _ _ _ λ created.
        Obeys-counted_call t s m 3 Good Any 2 (m + 1) _ _ _ _ (omega arith) (omega arith)
          (query_info-Obeys t s (m + 1) _ takes_once)
          λ response found.
            Obeys-counted_decoded t s m 3 Good 2 _ _ _ (omega arith) (inside response.buffer) λ a.
              Obeys-counted_call t s m 3 Good Any 3 (m + 2) _ _ _ _ (omega arith) (omega arith)
                (close-Obeys t s (m + 2) _ takes_once) λ closed shut. ends (good created.file_id a)

  pub set_basic_information-Obeys :
      (path : List ℕ) (info : FileBasicInformation)
      → Obeys t s
          (Ends (MutationSent m) (CountedFailure m 3) λ n. ⊥)
          m
          set_plan
          (set_basic_information m t s path info)
  unfolding set_basic_information
  set_basic_information-Obeys path info = set_metadata-Obeys path _ _ _ _ _

  pub set_extended_attributes-Obeys :
      (path : List ℕ) (entries : List FileFullEaInformation)
      → Obeys t s
          (Ends (MutationSent m) (CountedFailure m 3) λ n. ⊥)
          m
          set_plan
          (set_extended_attributes m t s path entries)
  unfolding set_extended_attributes
  set_extended_attributes-Obeys path entries = set_metadata-Obeys path _ _ _ _ _

  pub remove_extended_attribute-Obeys :
      (path name : List ℕ)
      → Obeys t s
          (Ends (MutationSent m) (CountedFailure m 3) λ n. ⊥)
          m
          set_plan
          (remove_extended_attribute m t s path name)
  unfolding remove_extended_attribute
  remove_extended_attribute-Obeys path name = set_extended_attributes-Obeys path _

  pub set_security_descriptor-Obeys :
      (path : List ℕ) (information : ℕ) (descriptor : List ℕ)
      → Obeys t s
          (Ends (MutationSent m) (CountedFailure m 3) λ n. ⊥)
          m
          set_plan
          (set_security_descriptor m t s path information descriptor)
  unfolding set_security_descriptor
  set_security_descriptor-Obeys path information descriptor = set_metadata-Obeys path _ _ _ _ _

  pub list_extended_attributes-Obeys :
      (path : List ℕ)
      → Obeys t s
          (Ends (λ n plan r. (n ≡ m + r.messages_used) × (plan ≡ [])) (CountedFailure m 3) λ n. ⊥)
          m
          query_plan
          (list_extended_attributes m t s path)
  unfolding list_extended_attributes
  list_extended_attributes-Obeys path =
      query_metadata-Obeys _ path _ _ _ _ _ decode_file_full_ea_information _
        (λ bytes. Ensures-weaken _ (decode_file_full_ea_information-Ensures bytes) λ a p. tt)
        λ f a. (refl, refl)

  pub query_security_descriptor-Obeys :
      (path : List ℕ) (information : ℕ)
      → Obeys t s
          (Ends (λ n plan r. (n ≡ m + r.messages_used) × (plan ≡ [])) (CountedFailure m 3) λ n. ⊥)
          m
          query_plan
          (query_security_descriptor m t s path information)
  unfolding query_security_descriptor
  query_security_descriptor-Obeys path information =
      query_metadata-Obeys _ path _ _ _ _ _ success _ (λ bytes. tt) λ f a. (refl, refl)
