-- ===== src/Session/Fresh/Counted.antt =====
-- The operations of src/native_smb/NativeSmbSession.cpp that move their message id afterwards, by the
-- messages that the operator says it used.
use smb_browser.Base.{ap, inl, inr, sym, ◌⊎◌, List, [], refl, ◌∷◌, ◌≡◌, ◌≤◌, ℕ, ◌+◌, ◌%◌, ◌^◌}
use smb_browser.Client.{Client, Ending}
use smb_browser.Client.Operators.Metadata.{RemoteMetadataMutationResult}
use smb_browser.Client.Operators.Sends.{Uncounted}
use smb_browser.Client.Operators.Sends.Counted.{CountedFailure, StatSent, stat-Obeys}
use smb_browser.Client.Operators.Sends.Described.{
  MutationSent, list_extended_attributes-Obeys, query_plan, query_security_descriptor-Obeys,
  remove_extended_attribute-Obeys, set_basic_information-Obeys, set_extended_attributes-Obeys,
  set_plan, set_security_descriptor-Obeys,
}
use smb_browser.Client.Operators.Sends.Listed.{CountedList, list-Obeys}
use smb_browser.Client.Operators.Sends.Transferred.{CountedWrite, write_once-Obeys, write_plan}
use smb_browser.Client.Safety.Rules.{Ends}
use smb_browser.Client.Traces.{Obeys, many, once}
use smb_browser.Protocol.Ea.{FileFullEaInformation}
use smb_browser.Protocol.Info.{FileBasicInformation}
use smb_browser.Session.{handed_on, Session, advance}
use smb_browser.Session.Files.{stat_object, list_directory, write_file_once}
use smb_browser.Session.Fresh.{Below, Leaves, Next, counted_by-Leaves}
use smb_browser.Session.Objects.{
  change_basic_information, change_extended_attributes, change_security_descriptor,
  changed_metadata, drop_extended_attribute, extended_attributes, security_descriptor,
}
use smb_browser.Wire.{ProtocolError, cancelled}
use smb_browser.Protocol.Command

-- The operations that write a file, list a directory and delete, on a session.
module _ (s : Session) where
  -- For every answer that the transport gives and every moment of a cancellation, writeFileOnce
  -- sends a CREATE request, a WRITE request if there are bytes to write, and a CLOSE request in
  -- this order, the first with the next message id of the session and each other one with the
  -- id behind it, all with the tree and the session of the session object, and reads no byte
  -- outside a buffer. When it succeeds it has sent all of them, and the next message id is the
  -- one behind the last; after an error the next id is three further, and at most three were
  -- sent. When a builder throws, the operation ends there, and of the next id nothing is said.
  pub write_file_once-Leaves :
      (path payload : List ℕ) (offset : ℕ)
      → Obeys s.tree_id s.session_id
          (Leaves Next (Below s.next_message_id 3))
          s.next_message_id
          (once Command.create ∷ write_plan payload)
          (write_file_once s path payload offset)
  unfolding write_file_once advance
  write_file_once-Leaves path payload offset =
      counted_by-Leaves s _ (CountedWrite s.next_message_id) (Uncounted s.next_message_id 3)
        (λ n. ⊥) (Below s.next_message_id 3) (λ r. r.messages_used) (λ e. 3) _ _
        (write_once-Obeys s.tree_id s.session_id s.next_message_id path payload offset)
        (λ n rest a good. good) λ n e bad. (bad.0, refl)

  -- For every answer that the transport gives and every moment of a cancellation, listDirectory
  -- sends a CREATE request, any number of QUERY_DIRECTORY requests and a CLOSE request in this
  -- order, the first with the next message id of the session and each other one with the id
  -- behind it, all with the tree and the session of the session object, and reads no byte
  -- outside a buffer. When it succeeds it has sent the CLOSE, and the next message id is the
  -- one behind it. After an error the next id is three further, however many requests were
  -- sent. When a builder throws, the operation ends there, and of the next id nothing is said.
  pub list_directory-Leaves :
      (rounds : ℕ) (path : List ℕ)
      → Obeys s.tree_id s.session_id
          (Leaves Next λ n s' e.
            (n ≤ s.next_message_id + (2 + rounds))
            × (s'.next_message_id ≡ (s.next_message_id + 3) % 2 ^ 64))
          s.next_message_id
          (once Command.create ∷ many Command.query_directory ∷ once Command.close ∷ [])
          (list_directory rounds s path)
  unfolding list_directory advance
  list_directory-Leaves rounds path =
      counted_by-Leaves s _ (CountedList s.next_message_id)
        (Uncounted s.next_message_id (2 + rounds)) (λ n. n ≡ s.next_message_id + (1 + rounds)) _
        (λ r. r.messages_used) (λ e. 3) _ _
        (list-Obeys s.tree_id s.session_id s.next_message_id rounds path) (λ n rest a good. good)
        λ n e bad. (bad.0, refl)

  -- The error says how many messages were sent, and so does the next id, but for a cancellation.
  abbrev pub UnlessCancelled : ℕ → Session → ProtocolError → Type 0
  UnlessCancelled n s' e = (e.code ≡ cancelled) ⊎ (s'.next_message_id ≡ n % 2 ^ 64)

  pub counted_failure :
      (count n : ℕ) (e : ProtocolError)
      → CountedFailure s.next_message_id count n e
      → UnlessCancelled n (advance s e.messages_used) (handed_on e)
  unfolding advance handed_on
  counted_failure count n e (below, inl stopped) = inl stopped
  counted_failure count n e (below, inr i) = inr (ap (λ (i : ℕ). i % 2 ^ 64) (sym i))

  -- For every answer that the transport gives and every moment of a cancellation, statObject
  -- sends a CREATE, two QUERY_INFO and a CLOSE request in this order, the first with the next
  -- message id of the session and each other one with the id behind it, all with the tree and
  -- the session of the session object, and reads no byte outside a buffer. When it succeeds it
  -- has sent all four. The next message id is the one behind the last that was sent, after a
  -- success and after every error but a cancellation. When a builder throws, the operation ends
  -- there, and of the next id nothing is said.
  pub stat_object-Leaves :
      (path : List ℕ)
      → Obeys s.tree_id s.session_id
          (Leaves Next UnlessCancelled)
          s.next_message_id
          (once Command.create
            ∷ once Command.query_info
            ∷ once Command.query_info
            ∷ once Command.close
            ∷ [])
          (stat_object s path)
  unfolding stat_object
  stat_object-Leaves path =
      counted_by-Leaves s _ (StatSent s.next_message_id) (CountedFailure s.next_message_id 4)
        (λ n. ⊥) UnlessCancelled (λ r. r.messages_used) (λ e. e.messages_used) _ _
        (stat-Obeys s.tree_id s.session_id s.next_message_id path) (λ n rest a good. good)
        (counted_failure 4)

  changed_metadata-Leaves :
      (path : List ℕ) (m : ℕ → ℕ → ℕ → Client (Ending RemoteMetadataMutationResult))
      → Obeys s.tree_id s.session_id
          (Ends (MutationSent s.next_message_id) (CountedFailure s.next_message_id 3) λ n. ⊥)
          s.next_message_id
          set_plan
          (m s.next_message_id s.tree_id s.session_id)
      → Obeys s.tree_id s.session_id
          (Leaves Next UnlessCancelled)
          s.next_message_id
          set_plan
          (changed_metadata s path m)
  unfolding changed_metadata
  changed_metadata-Leaves path m d =
      counted_by-Leaves s _ (MutationSent s.next_message_id) (CountedFailure s.next_message_id 3)
        (λ n. ⊥) UnlessCancelled (λ r. r.messages_used) (λ e. e.messages_used) _ _ d
        (λ n rest a good. good) (counted_failure 3)

  pub change_basic_information-Leaves :
      (path : List ℕ) (info : FileBasicInformation)
      → Obeys s.tree_id s.session_id
          (Leaves Next UnlessCancelled)
          s.next_message_id
          set_plan
          (change_basic_information s path info)
  unfolding change_basic_information
  change_basic_information-Leaves path info =
      changed_metadata-Leaves path _
        (set_basic_information-Obeys s.tree_id s.session_id s.next_message_id path info)

  -- For every answer that the transport gives and every moment of a cancellation,
  -- setExtendedAttributes sends a CREATE, a SET_INFO and a CLOSE request in this order, the
  -- first with the next message id of the session and each other one with the id behind it, all
  -- with the tree and the session of the session object, and reads no byte outside a buffer.
  -- When it succeeds it has sent all three. The next message id is the one behind the last that
  -- was sent, after a success and after every error but a cancellation. When a builder throws,
  -- the operation ends there, and of the next id nothing is said.
  pub change_extended_attributes-Leaves :
      (path : List ℕ) (entries : List FileFullEaInformation)
      → Obeys s.tree_id s.session_id
          (Leaves Next UnlessCancelled)
          s.next_message_id
          set_plan
          (change_extended_attributes s path entries)
  unfolding change_extended_attributes
  change_extended_attributes-Leaves path entries =
      changed_metadata-Leaves path _
        (set_extended_attributes-Obeys s.tree_id s.session_id s.next_message_id path entries)

  pub drop_extended_attribute-Leaves :
      (path name : List ℕ)
      → Obeys s.tree_id s.session_id
          (Leaves Next UnlessCancelled)
          s.next_message_id
          set_plan
          (drop_extended_attribute s path name)
  unfolding drop_extended_attribute
  drop_extended_attribute-Leaves path name =
      changed_metadata-Leaves path _
        (remove_extended_attribute-Obeys s.tree_id s.session_id s.next_message_id path name)

  pub change_security_descriptor-Leaves :
      (path : List ℕ) (information : ℕ) (descriptor : List ℕ)
      → Obeys s.tree_id s.session_id
          (Leaves Next UnlessCancelled)
          s.next_message_id
          set_plan
          (change_security_descriptor s path information descriptor)
  unfolding change_security_descriptor
  change_security_descriptor-Leaves path information descriptor = changed_metadata-Leaves path _ (
      set_security_descriptor-Obeys s.tree_id s.session_id s.next_message_id path information
        descriptor)

  -- For every answer that the transport gives and every moment of a cancellation,
  -- listExtendedAttributes sends a CREATE, a QUERY_INFO and a CLOSE request in this order, the
  -- first with the next message id of the session and each other one with the id behind it, all
  -- with the tree and the session of the session object, and reads no byte outside a buffer.
  -- When it succeeds it has sent all three. The next message id is the one behind the last that
  -- was sent, after a success and after every error but a cancellation. When a builder throws,
  -- the operation ends there, and of the next id nothing is said.
  pub extended_attributes-Leaves :
      (path : List ℕ)
      → Obeys s.tree_id s.session_id
          (Leaves Next UnlessCancelled)
          s.next_message_id
          query_plan
          (extended_attributes s path)
  unfolding extended_attributes
  extended_attributes-Leaves path =
      counted_by-Leaves s _ _ (CountedFailure s.next_message_id 3) (λ n. ⊥) UnlessCancelled
        (λ r. r.messages_used) (λ e. e.messages_used) _ _
        (list_extended_attributes-Obeys s.tree_id s.session_id s.next_message_id path)
        (λ n rest a good. good) (counted_failure 3)

  pub security_descriptor-Leaves :
      (path : List ℕ) (information : ℕ)
      → Obeys s.tree_id s.session_id
          (Leaves Next UnlessCancelled)
          s.next_message_id
          query_plan
          (security_descriptor s path information)
  unfolding security_descriptor
  security_descriptor-Leaves path information =
      counted_by-Leaves s _ _ (CountedFailure s.next_message_id 3) (λ n. ⊥) UnlessCancelled
        (λ r. r.messages_used) (λ e. e.messages_used) _ _
        (query_security_descriptor-Obeys s.tree_id s.session_id s.next_message_id path information)
        (λ n rest a good. good) (counted_failure 3)
