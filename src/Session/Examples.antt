-- ===== src/Session/Examples.antt =====
-- The session of src/native_smb/NativeSmbSession.cpp on concrete values.
use smb_browser.Base.{false, refl, some, true, ◌%◌, ◌^◌, ◌≡◌, ◌≤◌, List, ℕ, [], ◌+◌, ◌∷◌}
use smb_browser.Client.Exchangers.{tree_connect}
use smb_browser.Client.Exchangers.Connects.{Connects, tree_connect-Obeys}
use smb_browser.Protocol.Tree.{TreeConnectRequestOptions}
use smb_browser.Client.Traces.{Obeys, many, once, takes_once}
use smb_browser.Session.{Session, new_session}
use smb_browser.Session.Copy.{copy_opened}
use smb_browser.Session.Copy.Cleanup.{ClosedReply}
use smb_browser.Session.Copy.Opened.{copy_opened-Closed}
use smb_browser.Session.Files.{
  list_directory, read_file_once, stat_object, watch_directory_once, write_file_once,
}
use smb_browser.Session.Fresh.{Below, Leaves, Next}
use smb_browser.Session.Fresh.Allocated.{
  delete_one-Leaves, read_file_once-Leaves, symlink_one-Leaves, watch_directory_once-Leaves,
}
use smb_browser.Session.Fresh.Counted.{
  UnlessCancelled, change_extended_attributes-Leaves, extended_attributes-Leaves,
  list_directory-Leaves, stat_object-Leaves, write_file_once-Leaves,
}
use smb_browser.Session.Objects.{
  change_extended_attributes, delete_one, extended_attributes, symlink_one,
}
use smb_browser.Session.Wildcard.{
  accepts, lower_ascii, only_stars, retry, run_rounds, times, wildcard_matches, wildcard_result,
  wildcard_round, wildcard_rounds,
}
use smb_browser.Session.Wildcard.Equivalence.{wildcard_result-matches}
use smb_browser.Session.Wildcard.Meaning.{matches}
use smb_browser.Wire.{DecodeResult, FileId, failed, network_error}
use smb_browser.Protocol.Command

-- The session 9 on the tree 7, with the next message id 4.
abbrev example_session : Session
example_session = new_session 7 9 4

-- "a"
abbrev name : List ℕ
name = 0x61 ∷ []

abbrev source_file : FileId
source_file = record { persistent = 1; volatile_id = 2 }

abbrev target_file : FileId
target_file = record { persistent = 3; volatile_id = 4 }

-- A transport that has no connection.
abbrev no_answer : ℕ → List ℕ → DecodeResult (List ℕ)
no_answer i frame = failed network_error "no connection"

copy_opened-Closed_example :
    Obeys 7 9 ClosedReply 4
      (many Command.ioctl ∷ once Command.close ∷ once Command.close ∷ [])
      (copy_opened source_file target_file name 3000000 example_session)
unfolding new_session
copy_opened-Closed_example =
    copy_opened-Closed source_file target_file name 3000000 example_session 4 refl

-- "A*c?" against "abcd".
wildcard_result-matches_example :
    wildcard_result (0x41 ∷ 0x2a ∷ 0x63 ∷ 0x3f ∷ []) (0x61 ∷ 0x62 ∷ 0x63 ∷ 0x64 ∷ [])
    ≡ some (matches (0x41 ∷ 0x2a ∷ 0x63 ∷ 0x3f ∷ []) (0x61 ∷ 0x62 ∷ 0x63 ∷ 0x64 ∷ []))
wildcard_result-matches_example =
    wildcard_result-matches (0x41 ∷ 0x2a ∷ 0x63 ∷ 0x3f ∷ []) (0x61 ∷ 0x62 ∷ 0x63 ∷ 0x64 ∷ [])
      (refl, (refl, (refl, (refl, tt))))

matched : wildcard_matches (0x41 ∷ 0x2a ∷ 0x63 ∷ 0x3f ∷ []) (0x61 ∷ 0x62 ∷ 0x63 ∷ 0x64 ∷ []) ≡ true
unfolding wildcard_matches wildcard_result wildcard_rounds run_rounds wildcard_round times accepts
    lower_ascii retry only_stars
matched = refl

-- The pattern "*" does not match the name "*a".
star_missed : wildcard_matches (0x2a ∷ []) (0x2a ∷ 0x61 ∷ []) ≡ false
unfolding wildcard_matches wildcard_result wildcard_rounds run_rounds wildcard_round times accepts
    lower_ascii retry only_stars
star_missed = refl

read_file_once-Leaves_example :
    Obeys 7 9
      (Leaves Next (Below 4 3))
      4
      (once Command.create ∷ once Command.read ∷ once Command.close ∷ [])
      (read_file_once example_session name 100 0)
unfolding new_session
read_file_once-Leaves_example = read_file_once-Leaves example_session name 100 0

write_file_once-Leaves_example :
    Obeys 7 9
      (Leaves Next (Below 4 3))
      4
      (once Command.create ∷ once Command.write ∷ once Command.close ∷ [])
      (write_file_once example_session name (1 ∷ []) 0)
unfolding new_session
write_file_once-Leaves_example = write_file_once-Leaves example_session name (1 ∷ []) 0

list_directory-Leaves_example :
    Obeys 7 9
      (Leaves Next λ n s' e. (n ≤ 4 + (2 + 5)) × (s'.next_message_id ≡ (4 + 3) % 2 ^ 64))
      4
      (once Command.create ∷ many Command.query_directory ∷ once Command.close ∷ [])
      (list_directory 5 example_session name)
unfolding new_session
list_directory-Leaves_example = list_directory-Leaves example_session 5 name

stat_object-Leaves_example :
    Obeys 7 9
      (Leaves Next (UnlessCancelled example_session))
      4
      (once Command.create
        ∷ once Command.query_info
        ∷ once Command.query_info
        ∷ once Command.close
        ∷ [])
      (stat_object example_session name)
unfolding new_session
stat_object-Leaves_example = stat_object-Leaves example_session name

watch_directory_once-Leaves_example :
    Obeys 7 9
      (Leaves Next (Below 4 3))
      4
      (once Command.create ∷ once Command.change_notify ∷ once Command.close ∷ [])
      (watch_directory_once example_session name 1 true)
unfolding new_session
watch_directory_once-Leaves_example = watch_directory_once-Leaves example_session name 1 true

delete_one-Leaves_example :
    Obeys 7 9
      (Leaves Next (Below 4 3))
      4
      (once Command.create ∷ once Command.set_info ∷ once Command.close ∷ [])
      (delete_one example_session name false)
unfolding new_session
delete_one-Leaves_example = delete_one-Leaves example_session name false

symlink_one-Leaves_example :
    Obeys 7 9
      (Leaves Next (Below 4 3))
      4
      (once Command.create ∷ once Command.ioctl ∷ once Command.close ∷ [])
      (symlink_one example_session name (0x62 ∷ []) false true)
unfolding new_session
symlink_one-Leaves_example = symlink_one-Leaves example_session name (0x62 ∷ []) false true

change_extended_attributes-Leaves_example :
    Obeys 7 9
      (Leaves Next (UnlessCancelled example_session))
      4
      (once Command.create ∷ once Command.set_info ∷ once Command.close ∷ [])
      (change_extended_attributes example_session name
        (record { name = name; value = 1 ∷ []; need_ea = false } ∷ []))
unfolding new_session
change_extended_attributes-Leaves_example =
    change_extended_attributes-Leaves example_session name
      (record { name = name; value = 1 ∷ []; need_ea = false } ∷ [])

extended_attributes-Leaves_example :
    Obeys 7 9
      (Leaves Next (UnlessCancelled example_session))
      4
      (once Command.create ∷ once Command.query_info ∷ once Command.close ∷ [])
      (extended_attributes example_session name)
unfolding new_session
extended_attributes-Leaves_example = extended_attributes-Leaves example_session name

abbrev example_share : TreeConnectRequestOptions
example_share = record { server = name; share = name; flags = 0 }

tree_connect-Obeys_example :
    Obeys 0 9
      (Connects example_share 3 9 (once Command.tree_connect ∷ []) [])
      3
      (once Command.tree_connect ∷ [])
      (tree_connect example_share 3 9)
tree_connect-Obeys_example = tree_connect-Obeys example_share 3 9 takes_once
