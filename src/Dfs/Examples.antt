-- ===== src/Dfs/Examples.antt =====
-- The DFS referrals of src/native_smb on concrete values.
use smb_browser.Base.{replicate, ◌++◌, List, ℕ, [], ◌∷◌}
use smb_browser.Client.Traces.{Obeys, once}
use smb_browser.Dfs.{decode_dfs_referral_response}
use smb_browser.Dfs.Fetcher.{get_dfs_referrals, get_dfs_referrals-Leaves}
use smb_browser.Dfs.Safety.{IsReferrals, decode_dfs_referral_response-Ensures}
use smb_browser.Session.{new_session}
use smb_browser.Session.Fresh.{Leaves, Next}
use smb_browser.Session.Fresh.Counted.{UnlessCancelled}
use smb_browser.Wire.Reads.{Ensures}
use smb_browser.Protocol.Command

-- One entry of version 3 with the path "a" behind it.
abbrev one_referral : List ℕ
one_referral =
    (2 ∷ 0 ∷ 1 ∷ 0 ∷ 0 ∷ 0 ∷ 0 ∷ 0 ∷ [])
    ++ (3 ∷ 0 ∷ 34 ∷ 0 ∷ 1 ∷ 0 ∷ 0 ∷ 0 ∷ 60 ∷ 0 ∷ 0 ∷ 0 ∷ 34 ∷ 0 ∷ 0 ∷ 0 ∷ 0 ∷ 0 ∷ [])
    ++ replicate 16 0
    ++ (0x61 ∷ 0 ∷ 0 ∷ 0 ∷ [])

decode_dfs_referral_response-Ensures_example :
    Ensures (IsReferrals one_referral) (decode_dfs_referral_response one_referral)
decode_dfs_referral_response-Ensures_example = decode_dfs_referral_response-Ensures one_referral

get_dfs_referrals-Leaves_example :
    Obeys 7 9
      (Leaves Next (UnlessCancelled (new_session 7 9 4)))
      4
      (once Command.ioctl ∷ [])
      (get_dfs_referrals (new_session 7 9 4) (0x5c ∷ 0x61 ∷ []))
unfolding new_session
get_dfs_referrals-Leaves_example = get_dfs_referrals-Leaves (new_session 7 9 4) (0x5c ∷ 0x61 ∷ [])
