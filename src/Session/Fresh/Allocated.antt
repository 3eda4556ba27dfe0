-- ===== src/Session/Fresh/Allocated.antt =====
-- The operations of src/native_smb/NativeSmbSession.cpp that take their message ids beforehand, by
-- allocateMessageIds.
use smb_browser.Base.{Bool, List, [], ◌∷◌, ℕ}
use smb_browser.Client.Operators.Sends.{AllSent}
use smb_browser.Client.Operators.Sends.Mutated.{
  create_directory-Obeys, create_hard_link-Obeys, create_symbolic_link-Obeys, delete_object-Obeys,
  rename_object-Obeys,
}
use smb_browser.Client.Operators.Sends.Transferred.{read_once-Obeys, wait_once-Obeys}
use smb_browser.Client.Traces.{Obeys, once}
use smb_browser.Session.{Session}
use smb_browser.Session.Files.{read_file_once, watch_directory_once}
use smb_browser.Session.Fresh.{Below, Leaves, Next, allocated-Leaves}
use smb_browser.Session.Objects.{delete_one, link_one, make_directory, rename_one, symlink_one}
use smb_browser.Protocol.Command

module _ (s : Session) where
  -- For every answer that the transport gives and every moment of a cancellation, readFileOnce
  -- sends a CREATE, a READ and a CLOSE request in this order, the first with the next message
  -- id of the session and each other one with the id behind it, all with the tree and the
  -- session of the session object, and reads no byte outside a buffer. When it succeeds it has
  -- sent all three, and the next message id is the one behind the last; after an error the next
  -- id is three further, and at most three were sent. When a builder throws, the operation ends
  -- there, and of the next id nothing is said.
  pub read_file_once-Leaves :
      (path : List ℕ) (size offset : ℕ)
      → Obeys s.tree_id s.session_id
          (Leaves Next (Below s.next_message_id 3))
          s.next_message_id
          (once Command.create ∷ once Command.read ∷ once Command.close ∷ [])
          (read_file_once s path size offset)
  unfolding read_file_once
  read_file_once-Leaves path size offset =
      allocated-Leaves s _ (AllSent s.next_message_id 3) (λ n. ⊥) 3 _ _
        (read_once-Obeys s.tree_id s.session_id s.next_message_id path size offset)
        λ n rest a good. good

  -- For every answer that the transport gives and every moment of a cancellation,
  -- watchDirectoryOnce sends a CREATE, a CHANGE_NOTIFY and a CLOSE request in this order, the
  -- first with the next message id of the session and each other one with the id behind it, all
  -- with the tree and the session of the session object, and reads no byte outside a buffer.
  -- When it succeeds it has sent all three, and the next message id is the one behind the last;
  -- after an error the next id is three further, and at most three were sent. When a builder
  -- throws, the operation ends there, and of the next id nothing is said.
  pub watch_directory_once-Leaves :
      (path : List ℕ) (completion_filter : ℕ) (watch_tree : Bool)
      → Obeys s.tree_id s.session_id
          (Leaves Next (Below s.next_message_id 3))
          s.next_message_id
          (once Command.create ∷ once Command.change_notify ∷ once Command.close ∷ [])
          (watch_directory_once s path completion_filter watch_tree)
  unfolding watch_directory_once
  watch_directory_once-Leaves path completion_filter watch_tree =
      allocated-Leaves s _ (AllSent s.next_message_id 3) (λ n. ⊥) 3 _ _
        (wait_once-Obeys s.tree_id s.session_id s.next_message_id path completion_filter watch_tree
          65536)
        λ n rest a good. good

  pub make_directory-Leaves :
      (path : List ℕ)
      → Obeys s.tree_id s.session_id
          (Leaves Next (Below s.next_message_id 2))
          s.next_message_id
          (once Command.create ∷ once Command.close ∷ [])
          (make_directory s path)
  unfolding make_directory
  make_directory-Leaves path =
      allocated-Leaves s _ (AllSent s.next_message_id 2) (λ n. ⊥) 2 _ _
        (create_directory-Obeys s.tree_id s.session_id s.next_message_id path) λ n rest a good. good

  -- For every answer that the transport gives and every moment of a cancellation, deleteObject
  -- sends a CREATE, a SET_INFO and a CLOSE request in this order, the first with the next
  -- message id of the session and each other one with the id behind it, all with the tree and
  -- the session of the session object, and reads no byte outside a buffer. When it succeeds it
  -- has sent all three, and the next message id is the one behind the last; after an error the
  -- next id is three further, and at most three were sent. When a builder throws, the operation
  -- ends there, and of the next id nothing is said.
  pub delete_one-Leaves :
      (path : List ℕ) (directory : Bool)
      → Obeys s.tree_id s.session_id
          (Leaves Next (Below s.next_message_id 3))
          s.next_message_id
          (once Command.create ∷ once Command.set_info ∷ once Command.close ∷ [])
          (delete_one s path directory)
  unfolding delete_one
  delete_one-Leaves path directory =
      allocated-Leaves s _ (AllSent s.next_message_id 3) (λ n. ⊥) 3 _ _
        (delete_object-Obeys s.tree_id s.session_id s.next_message_id path directory)
        λ n rest a good. good

  pub rename_one-Leaves :
      (from_path to_path : List ℕ) (replace_if_exists : Bool)
      → Obeys s.tree_id s.session_id
          (Leaves Next (Below s.next_message_id 3))
          s.next_message_id
          (once Command.create ∷ once Command.set_info ∷ once Command.close ∷ [])
          (rename_one s from_path to_path replace_if_exists)
  unfolding rename_one
  rename_one-Leaves from_path to_path replace_if_exists =
      allocated-Leaves s _ (AllSent s.next_message_id 3) (λ n. ⊥) 3 _ _
        (rename_object-Obeys s.tree_id s.session_id s.next_message_id from_path to_path
          replace_if_exists)
        λ n rest a good. good

  pub link_one-Leaves :
      (existing_path link_path : List ℕ) (replace_if_exists : Bool)
      → Obeys s.tree_id s.session_id
          (Leaves Next (Below s.next_message_id 3))
          s.next_message_id
          (once Command.create ∷ once Command.set_info ∷ once Command.close ∷ [])
          (link_one s existing_path link_path replace_if_exists)
  unfolding link_one
  link_one-Leaves existing_path link_path replace_if_exists =
      allocated-Leaves s _ (AllSent s.next_message_id 3) (λ n. ⊥) 3 _ _
        (create_hard_link-Obeys s.tree_id s.session_id s.next_message_id existing_path link_path
          replace_if_exists)
        λ n rest a good. good

  -- For every answer that the transport gives and every moment of a cancellation,
  -- createSymbolicLink sends a CREATE, an IOCTL and a CLOSE request in this order, the first
  -- with the next message id of the session and each other one with the id behind it, all with
  -- the tree and the session of the session object, and reads no byte outside a buffer. When it
  -- succeeds it has sent all three, and the next message id is the one behind the last; after
  -- an error the next id is three further, and at most three were sent. When a builder throws,
  -- the operation ends there, and of the next id nothing is said.
  pub symlink_one-Leaves :
      (link_path target_path : List ℕ) (directory relative : Bool)
      → Obeys s.tree_id s.session_id
          (Leaves Next (Below s.next_message_id 3))
          s.next_message_id
          (once Command.create ∷ once Command.ioctl ∷ once Command.close ∷ [])
          (symlink_one s link_path target_path directory relative)
  unfolding symlink_one
  symlink_one-Leaves link_path target_path directory relative =
      allocated-Leaves s _ (AllSent s.next_message_id 3) (λ n. ⊥) 3 _ _
        (create_symbolic_link-Obeys s.tree_id s.session_id s.next_message_id link_path target_path
          directory relative)
        λ n rest a good. good
