-- ===== src/Protocol/Session/Contexts.antt =====
-- The negotiate contexts of SMB 3.1.1 that buildNegotiateRequest of Protocol.cpp appends.
use smb_browser.Base.{
  drop_append, false, is_empty, le→not_ltb, ap, drop, sym, Bool-cases, append-nil, inl, inr, ◌∙◌,
  [], bit_and, if◌then◌else◌, not, true, ◌<◌, ◌==◌, ◌∷◌, append_assoc, arith, length-append,
  length-replicate, refl, ◌-◌, List, length, ℕ, ◌%◌, ◌*◌, ◌++◌, ◌+◌, ◌/◌, ◌≡◌,
}
use smb_browser.Protocol.Header.{encode_smb2_sync_header, request}
use smb_browser.Protocol.Session.{
  build_negotiate_request, security_mode_for_policy, NegotiateRequestOptions, dialect_words,
  encryption_capabilities_context, has_dialect, negotiate_contexts, negotiate_head,
  preauth_integrity_context, smb311, append_negotiate_context,
}
use smb_browser.Wire.{built, throw_if, u64_le, padding, u16_le, u32_le}
use smb_browser.Wire.Behind.{u32_of_behind}
use smb_browser.Wire.Reads.{u32_of}
use smb_browser.Protocol.Command

-- One context with the zeros up to the next multiple of 8.
unfoldable pub context : ℕ → List ℕ → List ℕ
context type payload =
    u16_le type ++ u16_le (length payload) ++ u32_le 0 ++ payload ++ padding (8 + length payload) 8

padding_aligned : (front size : ℕ) → front % 8 ≡ 0 → padding (front + size) 8 ≡ padding size 8
unfolding padding
padding_aligned front size aligned =
    let same : (front + size) % 8 ≡ size % 8 = omega arith in rw same refl

append_aligned :
    (front : List ℕ) (type : ℕ) (payload : List ℕ)
    → length front % 8 ≡ 0
    → append_negotiate_context front type payload ≡ front ++ context type payload
unfolding append_negotiate_context context u16_le u32_le
append_aligned front type payload aligned =
    let fixed = u16_le type ++ u16_le (length payload) ++ u32_le 0 ++ payload in
    let long : length (front ++ fixed) ≡ length front + (8 + length payload) =
      omega (arith, length-append front fixed) in
    rw (long, padding_aligned (length front) (8 + length payload) aligned)
      (append_assoc front fixed (padding (8 + length payload) 8))

length-padded :
    (front : List ℕ) → length (front ++ padding (length front) 8) ≡ (length front + 7) / 8 * 8
unfolding padding
length-padded front = ground (
  arith,
  length-append front (padding (length front) 8),
  length-replicate {A = ℕ} (8 - length front % 8) 0,
)

-- What buildPreauthIntegrityContext and buildEncryptionCapabilitiesContext give, in their contexts.
unfoldable pub contexts_of : NegotiateRequestOptions → List ℕ
contexts_of options =
    context 1 (preauth_integrity_context options.client_guid)
    ++ (if not (bit_and options.capabilities 0x40 == 0)
        then context 2 encryption_capabilities_context
        else [])

reassoc :
    (a p g o c d w t : List ℕ)
    → (a ++ (p ++ g ++ o ++ c ++ d ++ w)) ++ t ≡ (a ++ (p ++ g)) ++ (o ++ (c ++ (d ++ (w ++ t))))
reassoc a p g o c d w t = simp append_assoc

length-parts :
    (g o c d w : List ℕ)
    → length (g ++ o ++ c ++ d ++ w) ≡ length g + length o + length c + length d + length w
length-parts g o c d w = omega (
  arith,
  length-append (g ++ o ++ c ++ d) w,
  length-append (g ++ o ++ c) d,
  length-append (g ++ o) c,
  length-append g o,
)

length-dialect_words : (dialects : List ℕ) → length (dialect_words dialects) ≡ 2 * length dialects
unfolding dialect_words u16_le
length-dialect_words [] = refl
length-dialect_words (d ∷ dialects) = omega (arith, length-dialect_words dialects)

-- Where the contexts begin.
abbrev pub context_offset : List ℕ → ℕ
context_offset dialects = (100 + 2 * length dialects + 7) / 8 * 8

length-context :
    (type : ℕ) (payload : List ℕ)
    → length (context type payload) ≡ 8 + length payload + length (padding (8 + length payload) 8)
unfolding context u16_le u32_le
length-context type payload = omega (arith, length-append payload (padding (8 + length payload) 8))

length-preauth : (guid : List ℕ) → length guid ≡ 16 → length (preauth_integrity_context guid) ≡ 38
unfolding preauth_integrity_context u16_le
length-preauth guid g = omega (arith, length-append guid guid)

module _ (options : NegotiateRequestOptions) (message_id : ℕ) where
  abbrev head : List ℕ
  head = negotiate_head options.dialects options message_id

  length-head : length options.client_guid ≡ 16 → length head ≡ 100 + 2 * length options.dialects
  unfolding negotiate_head encode_smb2_sync_header request u16_le u32_le u64_le
  length-head g = omega (
    arith,
    length-parts options.client_guid
        (u32_le (
          if has_dialect options.dialects smb311
          then (100 + length options.dialects * 2 + 7) / 8 * 8
          else 0))
        (u16_le (
          if has_dialect options.dialects smb311
          then (if not (bit_and options.capabilities 0x40 == 0) then 2 else 1)
          else 0))
        (u16_le 0) (dialect_words options.dialects),
    length-dialect_words options.dialects,
  )

  context-length :
      length options.client_guid ≡ 16
      → length (context 1 (preauth_integrity_context options.client_guid)) ≡ 48
  context-length g =
      length-context 1 (preauth_integrity_context options.client_guid)
      ∙ rw (length-preauth options.client_guid g) (unfold padding in refl)

  contexts_appended :
      length options.client_guid ≡ 16
      → negotiate_contexts head options ≡ (head ++ padding (length head) 8) ++ contexts_of options
  unfolding negotiate_contexts contexts_of
  contexts_appended g =
      let padded = head ++ padding (length head) 8 in
      let aligned : length padded % 8 ≡ 0 = omega (arith, length-padded head) in
      let first = context 1 (preauth_integrity_context options.client_guid) in
      let still : length (padded ++ first) % 8 ≡ 0 =
        omega (arith, length-append padded first, context-length g) in
      elim (Bool-cases (not (bit_and options.capabilities 0x40 == 0))) [
        | inl e ↦
            rw
              (
                e,
                append_aligned padded 1 (preauth_integrity_context options.client_guid) aligned,
                append_aligned (padded ++ first) 2 encryption_capabilities_context still,
              )
              (append_assoc padded first (context 2 encryption_capabilities_context))
        | inr e ↦
            rw
              (
                e,
                append_aligned padded 1 (preauth_integrity_context options.client_guid) aligned,
                append-nil first,
              )
              refl
      ]

  offset_read :
      (tail : List ℕ)
      → has_dialect options.dialects smb311 ≡ true
      → length options.client_guid ≡ 16
      → length options.dialects < 65536
      → u32_of (head ++ tail) 92 ≡ context_offset options.dialects
  unfolding negotiate_head
  offset_read tail offered g few =
      let enc =
        encode_smb2_sync_header
          (record (request Command.negotiate message_id 0 0) { credit_charge = 0 }) in
      let p =
        u16_le 36
        ++ u16_le (length options.dialects)
        ++ u16_le (security_mode_for_policy options.signing)
        ++ u16_le 0
        ++ u32_le options.capabilities in
      let front : length (enc ++ (p ++ options.client_guid)) ≡ 92 =
        unfold encode_smb2_sync_header request u16_le u32_le u64_le in omega arith in
      let stored =
        if has_dialect options.dialects smb311
        then (100 + length options.dialects * 2 + 7) / 8 * 8
        else 0 in
      let same : stored ≡ context_offset options.dialects = rw offered (omega arith) in
      ap (λ bytes. u32_of bytes 92)
        (reassoc enc p options.client_guid (u32_le stored)
          (u16_le (
            if has_dialect options.dialects smb311
            then (if not (bit_and options.capabilities 0x40 == 0) then 2 else 1)
            else 0))
          (u16_le 0) (dialect_words options.dialects) tail)
      ∙ u32_of_behind (enc ++ (p ++ options.client_guid)) _ stored 92 (sym front) (omega arith)
      ∙ same

offered_some :
    (dialects : List ℕ) (d : ℕ) → has_dialect dialects d ≡ true → is_empty dialects ≡ false
unfolding has_dialect
offered_some [] d h = cc
offered_some (x ∷ dialects) d h = refl

-- For 1 to 65535 dialects with SMB 3.1.1 among them and a client id of 16 bytes,
-- buildNegotiateRequest gives a message whose field NegotiateContextOffset, at byte 92, is the
-- end of the dialects rounded up to a multiple of 8, and in which exactly the contexts stand
-- from that byte to the end: the preauthentication integrity context and, if the encryption
-- capability is set, the encryption context, each with its length and padded to a multiple of
-- 8.
pub build_negotiate_request_contexts :
    (options : NegotiateRequestOptions) (message_id : ℕ)
    → has_dialect options.dialects smb311 ≡ true
    → length options.client_guid ≡ 16
    → length options.dialects < 65536
    → (bytes : List ℕ) × (build_negotiate_request options message_id ≡ built bytes)
      × (u32_of bytes 92 ≡ context_offset options.dialects)
      × (drop (context_offset options.dialects) bytes ≡ contexts_of options)
unfolding build_negotiate_request throw_if
build_negotiate_request_contexts options message_id offered g few =
    let start = head options message_id in
    let padded = start ++ padding (length start) 8 in
    let size : length padded ≡ context_offset options.dialects =
      length-padded start ∙ ap (λ (n : ℕ). (n + 7) / 8 * 8) (length-head options message_id g) in
    (
      padded ++ contexts_of options,
      rw
          (
            offered_some options.dialects smb311 offered,
            le→not_ltb 0xffff (length options.dialects) (omega arith),
            offered,
          )
          (ap built (contexts_appended options message_id g)),
      ap (λ bytes. u32_of bytes 92)
            (append_assoc start (padding (length start) 8) (contexts_of options))
          ∙ offset_read options message_id (padding (length start) 8 ++ contexts_of options) offered
              g few,
      drop_append padded (contexts_of options) (context_offset options.dialects) size,
    )
