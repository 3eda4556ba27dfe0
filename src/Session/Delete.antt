-- ===== src/Session/Delete.antt =====
-- deleteTreeInternal and deleteWildcard of src/native_smb/NativeSmbSession.cpp.
use smb_browser.Base.{
  Bool, List, String, [], false, if◌then◌else◌, is_empty, not, suc, true, zero, ◌&&◌, ◌++◌, ◌==◌,
  ◌||◌, ◌∷◌, ℕ,
}
use smb_browser.Client.{Client, finish, returned, unfinished}
use smb_browser.Session.{Reply, Session, refuse, then_with, unless_stopped}
use smb_browser.Session.Files.{NativeRemoteEntry, is_dot_entry, list_directory, stat_object}
use smb_browser.Session.Objects.{NativeObjectMutationResult, delete_one}
use smb_browser.Session.Wildcard.{wildcard_matches}
use smb_browser.Wire.{invalid_path, success}

ends_in_separator : List ℕ → Bool
ends_in_separator [] = false
ends_in_separator (b ∷ []) = (b == 0x5c) || (b == 0x2f)
ends_in_separator (b ∷ c ∷ bytes) = ends_in_separator (c ∷ bytes)

-- joinRemotePath
unfoldable pub join_remote_path : List ℕ → List ℕ → List ℕ
unfolding ends_in_separator
join_remote_path parent child =
    if is_empty parent
    then child
    else if ends_in_separator parent
    then parent ++ child
    else parent ++ 0x5c ∷ child

-- A directory that is no reparse point: its entries are deleted with it.
unfoldable pub is_tree : NativeRemoteEntry → Bool
is_tree entry = entry.directory && not entry.reparse_point

-- The loop over the entries of a listing: each one that is wanted is deleted, with `delete_directory`
-- when it is a tree, and `behind` follows.
unfoldable pub delete_entries :
    String
    → (List ℕ → Bool)
    → List ℕ
    → (Session → List ℕ → Client (Reply NativeObjectMutationResult))
    → List NativeRemoteEntry
    → (Session → Client (Reply NativeObjectMutationResult))
    → Session
    → Client (Reply NativeObjectMutationResult)
delete_entries message wanted parent delete_directory [] behind s = behind s
delete_entries message wanted parent delete_directory (entry ∷ entries) behind s =
    let rest = delete_entries message wanted parent delete_directory entries behind in
    let child = join_remote_path parent entry.name in
    if is_dot_entry entry.name || not (wanted entry.name)
    then rest s
    else unless_stopped s message (
        then_with
          (if is_tree entry then delete_directory s child else delete_one s child entry.directory)
          λ s' deleted. rest s')

-- deleteTreeInternal, to the given depth of directories.
unfoldable pub delete_tree : ℕ → ℕ → Session → List ℕ → Client (Reply NativeObjectMutationResult)
delete_tree zero rounds s path = finish (record { session = s; ending = unfinished })
delete_tree (suc depth) rounds s path =
    if is_empty path
    then refuse s invalid_path "Refusing to delete the SMB share root."
    else unless_stopped s "SMB recursive delete was cancelled." (
        then_with (stat_object s path) λ s1 stat.
          if not stat.directory || stat.reparse_point
          then delete_one s1 path stat.directory
          else then_with (list_directory rounds s1 path) λ s2 entries.
            delete_entries "SMB recursive delete was cancelled." (λ name. true) path
              (delete_tree depth rounds) entries (λ s3. delete_one s3 path true) s2)

unfoldable pub delete_wildcard :
    ℕ → ℕ → Session → List ℕ → List ℕ → Client (Reply NativeObjectMutationResult)
delete_wildcard depth rounds s parent pattern =
    if is_empty pattern
    then refuse s invalid_path "SMB wildcard delete pattern is empty."
    else unless_stopped s "SMB wildcard delete was cancelled." (
        then_with (list_directory rounds s parent) λ s1 entries.
          delete_entries "SMB wildcard delete was cancelled." (wildcard_matches pattern) parent
            (delete_tree depth rounds) entries
            (λ s2. finish (record {
              session = s2;
              ending = returned (success (record { path = join_remote_path parent pattern }));
            }))
            s1)
