-- ===== src/Client/Exchangers/Connects.antt =====
-- TreeConnector.cpp under the rules of Client/Safety, with the exceptions of the request.
use smb_browser.Base.{
  Bool, String, arith, false, inl, inr, length, not_ltb→le, refl, true, ◌<◌, ◌^◌, ◌≡◌, ◌⊎◌, List, ℕ,
  ◌+◌,
}
use smb_browser.Client.{Ending, returned, thrown, unfinished}
use smb_browser.Client.Exchangers.{TreeConnectResult, connected, tree_connect}
use smb_browser.Client.Exchangers.Sends.{Any}
use smb_browser.Client.Safety.Exchanges.{Decodes, exchanger_with}
use smb_browser.Client.Safety.Requests.{
  Builds, Builds-with_built, build_tree_connect_request-IsMessage,
}
use smb_browser.Client.Traces.{Takes, Obeys, Part}
use smb_browser.Protocol.Header.Responses.{decode_smb2_sync_header-Ensures}
use smb_browser.Protocol.Tree.{TreeConnectRequestOptions, build_tree_connect_request}
use smb_browser.Protocol.Tree.Safety.{decode_tree_connect_response-Ensures}
use smb_browser.Protocol.Frame.{encode_direct_tcp_frame}
use smb_browser.Protocol.Header.{encode_smb2_sync_header, request}
use smb_browser.Wire.{
  Built, built, throw_if, u16_le, u32_le, u64_le, with_built, cancelled, failure, fault, invalid,
  success,
}
use smb_browser.Wire.Reads.{Ensures-bind}
use smb_browser.Protocol.Command

connected-Decodes : Decodes connected
unfolding connected
connected-Decodes bytes small =
    Ensures-bind _ Any _ _ (decode_tree_connect_response-Ensures bytes) λ response found.
      Ensures-bind _ Any _ _ (decode_smb2_sync_header-Ensures bytes) λ header read. tt

-- A request that is short enough for a frame.
abbrev IsFramed : List ℕ → Type 0
IsFramed bytes = length bytes < 2 ^ 24

Builds-throw_unless :
    (bad : Bool) (m : String) (k : Built)
    → (bad ≡ false → Builds IsFramed k)
    → Builds IsFramed (throw_if bad m k)
unfolding throw_if
Builds-throw_unless true m k h = tt
Builds-throw_unless false m k h = h refl

framed :
    (r : Built) (m : String)
    → Builds IsFramed r
    → with_built r encode_direct_tcp_frame ≡ invalid m
    → r ≡ invalid m
unfolding with_built encode_direct_tcp_frame throw_if
framed (built bytes) m small e = ground arith
framed (invalid m') m small e = e

build_tree_connect_request-IsFramed :
    (o : TreeConnectRequestOptions) (n s : ℕ) → Builds IsFramed (build_tree_connect_request o n s)
unfolding build_tree_connect_request request encode_smb2_sync_header u16_le u32_le u64_le
build_tree_connect_request-IsFramed o n s = Builds-with_built IsFramed _ _ λ unc.
    Builds-with_built IsFramed _ _ λ path.
      Builds-throw_unless _ _ _ λ short. omega (arith, not_ltb→le 0xffff (length path) short)

-- How TreeConnector::connect ends: it sent the request, or was cancelled before, or the builder of
-- the request threw and nothing was sent.
abbrev pub Connects :
    TreeConnectRequestOptions
    → ℕ
    → ℕ
    → List Part
    → List Part
    → ℕ
    → List Part
    → Ending TreeConnectResult
    → Type 0
Connects options n s before after n' plan (returned (success r)) = (n' ≡ n + 1) × (plan ≡ after)
Connects options n s before after n' plan (returned (failure e)) =
    ((n' ≡ n + 1) × (plan ≡ after)) ⊎ ((n' ≡ n) × (plan ≡ before) × (e.code ≡ cancelled))
Connects options n s before after n' plan (returned fault) = ⊥
Connects options n s before after n' plan (thrown m) =
    (n' ≡ n) × (plan ≡ before) × (build_tree_connect_request options n s ≡ invalid m)
Connects options n s before after n' plan unfinished = ⊥

-- For every answer that the transport gives and every moment of a cancellation,
-- TreeConnector::connect ends in one of these ways: with a result, and then it has sent one
-- TREE_CONNECT request with the given message id and session and the tree 0; with an error, and
-- then it has sent that request, or it was cancelled before and has sent none; with the
-- exception of buildTreeConnectRequest for these options, and then it has sent none. It reads
-- no byte outside a buffer.
pub tree_connect-Obeys :
    (options : TreeConnectRequestOptions) (n s : ℕ) {before after : List Part}
    → Takes Command.tree_connect before after
    → Obeys 0 s (Connects options n s before after) n before (tree_connect options n s)
unfolding tree_connect
tree_connect-Obeys options n s {before} {after} takes =
    exchanger_with 0 s n Command.tree_connect takes _ connected connected-Decodes
      (Connects options n s before after) (λ e. inl (refl, refl)) (λ r. (refl, refl)) _
      (build_tree_connect_request-IsMessage n s options) (inr (refl, refl, refl))
      λ m e. (refl, refl, framed _ m (build_tree_connect_request-IsFramed options n s) e)
