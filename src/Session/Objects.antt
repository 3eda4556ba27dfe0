-- ===== src/Session/Objects.antt =====
-- The changes of src/native_smb/NativeSmbSession.cpp: createDirectory, deleteObject, renameObject,
-- createHardLink, createSymbolicLink and the operations on metadata. The result of a change is the
-- path that it names.
use smb_browser.Base.{Bool, List, ℕ}
use smb_browser.Client.{Client, Ending}
use smb_browser.Client.Operators.Metadata.{
  RemoteMetadataMutationResult, list_extended_attributes, query_security_descriptor,
  remove_extended_attribute, set_basic_information, set_extended_attributes,
  set_security_descriptor,
}
use smb_browser.Client.Operators.Objects.{
  create_directory, create_hard_link, create_symbolic_link, delete_object, rename_object,
}
use smb_browser.Protocol.Ea.{FileFullEaInformation}
use smb_browser.Protocol.Info.{FileBasicInformation}
use smb_browser.Session.{Reply, Session, allocated, counted_by}

-- NativeObjectMutationResult
pub record NativeObjectMutationResult : Type 0 where
  pub path : List ℕ

module _ (s : Session) where
  unfoldable pub make_directory : List ℕ → Client (Reply NativeObjectMutationResult)
  make_directory path =
      allocated s 2 (λ r. record { path = path }) λ m t i. create_directory m t i path

  unfoldable pub delete_one : List ℕ → Bool → Client (Reply NativeObjectMutationResult)
  delete_one path directory =
      allocated s 3 (λ r. record { path = path }) λ m t i. delete_object m t i path directory

  unfoldable pub rename_one : List ℕ → List ℕ → Bool → Client (Reply NativeObjectMutationResult)
  rename_one from_path to_path replace_if_exists =
      allocated s 3 (λ r. record { path = to_path })
        λ m t i. rename_object m t i from_path to_path replace_if_exists

  unfoldable pub link_one : List ℕ → List ℕ → Bool → Client (Reply NativeObjectMutationResult)
  link_one existing_path link_path replace_if_exists =
      allocated s 3 (λ r. record { path = link_path })
        λ m t i. create_hard_link m t i existing_path link_path replace_if_exists

  unfoldable pub symlink_one :
      List ℕ → List ℕ → Bool → Bool → Client (Reply NativeObjectMutationResult)
  symlink_one link_path target_path directory relative =
      allocated s 3 (λ r. record { path = link_path })
        λ m t i. create_symbolic_link m t i link_path target_path directory relative

  -- The body that the mutations of metadata share.
  unfoldable pub changed_metadata :
      List ℕ
      → (ℕ → ℕ → ℕ → Client (Ending RemoteMetadataMutationResult))
      → Client (Reply NativeObjectMutationResult)
  changed_metadata path m =
      counted_by s (λ r. r.messages_used) (λ e. e.messages_used) (λ r. record { path = path })
        (m s.next_message_id s.tree_id s.session_id)

  unfoldable pub change_basic_information :
      List ℕ → FileBasicInformation → Client (Reply NativeObjectMutationResult)
  change_basic_information path info =
      changed_metadata path λ m t i. set_basic_information m t i path info

  unfoldable pub change_extended_attributes :
      List ℕ → List FileFullEaInformation → Client (Reply NativeObjectMutationResult)
  change_extended_attributes path entries =
      changed_metadata path λ m t i. set_extended_attributes m t i path entries

  unfoldable pub drop_extended_attribute :
      List ℕ → List ℕ → Client (Reply NativeObjectMutationResult)
  drop_extended_attribute path name =
      changed_metadata path λ m t i. remove_extended_attribute m t i path name

  unfoldable pub change_security_descriptor :
      List ℕ → ℕ → List ℕ → Client (Reply NativeObjectMutationResult)
  change_security_descriptor path information descriptor =
      changed_metadata path λ m t i. set_security_descriptor m t i path information descriptor

  unfoldable pub extended_attributes : List ℕ → Client (Reply (List FileFullEaInformation))
  extended_attributes path =
      counted_by s (λ r. r.messages_used) (λ e. e.messages_used) (λ r. r.entries)
        (list_extended_attributes s.next_message_id s.tree_id s.session_id path)

  unfoldable pub security_descriptor : List ℕ → ℕ → Client (Reply (List ℕ))
  security_descriptor path information =
      counted_by s (λ r. r.messages_used) (λ e. e.messages_used) (λ r. r.descriptor)
        (query_security_descriptor s.next_message_id s.tree_id s.session_id path information)
