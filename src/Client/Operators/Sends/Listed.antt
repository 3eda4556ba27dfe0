-- ===== src/Client/Operators/Sends/Listed.antt =====
-- The requests of src/native_smb/DirectoryLister.cpp.
use smb_browser.Base.{
  is_empty, ◌++◌, ◌==◌, false, refl, true, ◌≤◌, Bool, arith, suc, zero, ◌≡◌, List, ℕ, [], ◌+◌, ◌∷◌,
}
use smb_browser.Client.Exchangers.Sends.{Any, create-Decodes}
use smb_browser.Client.Operators.{naming}
use smb_browser.Client.Operators.Listing.{close_listing, list, DirectoryListResult, list_pages}
use smb_browser.Client.Operators.Sends.{
  Obeys-closed, Obeys-opened_itself, naming-Ensures, Obeys-Uncounted-call, Obeys-Uncounted-decoded,
  Obeys-Uncounted_stop, Uncounted,
}
use smb_browser.Client.Safety.Exchanges.{Decodes, Decodes-Ensures, exchange_payload-Obeys}
use smb_browser.Client.Safety.Requests.{build_query_directory_request-IsMessage}
use smb_browser.Client.Safety.Rules.{Obeys-choice, Ends}
use smb_browser.Client.Traces.{takes_later, takes_once, Obeys, Part, ends, many, once, takes_again}
use smb_browser.Protocol.Directory.{DirectoryEntry, decode_query_directory_response}
use smb_browser.Protocol.Directory.Safety.{decode_query_directory_response-Ensures}
use smb_browser.Protocol.File.{decode_create_response}
use smb_browser.Protocol.Status.{status_no_more_files}
use smb_browser.Wire.{FileId}
use smb_browser.Protocol.Command

query_directory-Decodes : Decodes decode_query_directory_response
query_directory-Decodes = Decodes-Ensures _ _ decode_query_directory_response-Ensures

-- What the loop may still send.
abbrev pub list_plan : List Part
list_plan = many Command.query_directory ∷ once Command.close ∷ []

-- The messages sent are those that the result counts.
abbrev pub CountedList : ℕ → ℕ → List Part → DirectoryListResult → Type 0
CountedList m n plan r = (n ≡ m + r.messages_used) × (plan ≡ [])

module _ (t s m rounds : ℕ) where
  close_listing-Obeys :
      (f : FileId) (entries : List DirectoryEntry) (used : ℕ)
      → used + 1 ≤ 2 + rounds
      → Obeys t s
          (Ends (CountedList m) (Uncounted m (2 + rounds)) λ n. n ≡ m + (1 + rounds))
          (m + used)
          list_plan
          (close_listing m t s f entries used)
  unfolding close_listing
  close_listing-Obeys f entries used h =
      Obeys-closed t s m (2 + rounds) _ _ _ (m + used) _ _ (takes_later takes_once) (omega arith)
        (omega arith, refl)

  list_pages-Obeys :
      (f : FileId) (left : ℕ) (first_query : Bool) (entries : List DirectoryEntry) (used : ℕ)
      → used + left ≡ 1 + rounds
      → Obeys t s
          (Ends (CountedList m) (Uncounted m (2 + rounds)) λ n. n ≡ m + (1 + rounds))
          (m + used)
          list_plan
          (list_pages m t s f left first_query entries used)
  unfolding list_pages
  list_pages-Obeys f zero first_query entries used h = ends (omega arith)
  list_pages-Obeys f (suc left) first_query entries used h =
      Obeys-Uncounted-call t s m (2 + rounds) _ _ _ (m + used) (m + (used + 1)) _ _ _ _
        (omega arith) (omega arith)
        (exchange_payload-Obeys t s (m + used) Command.query_directory takes_again _
          (build_query_directory_request-IsMessage (m + used) t s _))
        λ payload small. Obeys-Uncounted_stop t s m (2 + rounds) _ _ _ _ _ _ (omega arith) (
          Obeys-Uncounted-decoded t s m (2 + rounds) _ _ _ _ _ _ (omega arith)
            (query_directory-Decodes payload small)
            λ response.
              Obeys-choice t s _ _ _ _ _ _ _ (response.status == status_no_more_files)
                (close_listing-Obeys f entries (used + 1) (omega arith))
                (Obeys-choice t s _ _ _ _ _ _ _ (is_empty response.entries)
                  (close_listing-Obeys f (entries ++ response.entries) (used + 1) (omega arith))
                  (list_pages-Obeys f left false (entries ++ response.entries) (used + 1)
                    (omega arith))))

  pub list-Obeys :
      (path : List ℕ)
      → Obeys t s
          (Ends (CountedList m) (Uncounted m (2 + rounds)) λ n. n ≡ m + (1 + rounds))
          m
          (once Command.create ∷ many Command.query_directory ∷ once Command.close ∷ [])
          (list rounds path m t s)
  unfolding list
  list-Obeys path =
      Obeys-opened_itself t s m (2 + rounds) _ _ (omega arith) _ _ _
        (λ payload. naming m (decode_create_response payload)) _
        (λ payload small. naming-Ensures Any m _ (create-Decodes payload small))
        λ created. list_pages-Obeys created.file_id rounds true [] 1 refl
