-- ===== src/Client/Operators/Metadata.antt =====
-- src/native_smb/RemoteMetadataOperator.cpp: times and attributes, extended attributes and security
-- descriptors; each opens an object, asks or sets once, and closes it.
use smb_browser.Base.{
  false, Bool, String, bit_and, if◌then◌else◌, not, ◌==◌, ◌||◌, List, ℕ, [], ◌+◌, ◌∷◌,
}
use smb_browser.Client.{
  Client, Ending, call, decoded, exchange_decoded, finish, returned, unless_cancelled, with_bytes,
}
use smb_browser.Client.Exchangers.{close, query_info, set_info}
use smb_browser.Client.Operators.Access.{
  access_system_security, close_options, create_options, file_attribute_normal, file_open,
  file_read_attributes, file_read_ea, file_write_attributes, file_write_ea, info_type_file,
  info_type_security, query_options, read_control_access, set_options, write_dac_access,
  write_owner_access,
}
use smb_browser.Protocol.Ea.{
  FileFullEaInformation, build_file_full_ea_information, decode_file_full_ea_information,
}
use smb_browser.Protocol.File.{
  CreateRequestOptions, CreateResponse, build_create_request, decode_create_response,
}
use smb_browser.Protocol.Info.{FileBasicInformation, build_file_basic_information}
use smb_browser.Wire.{Built, DecodeResult, FileId, built, success}

pub record RemoteMetadataMutationResult : Type 0 where
  pub file_id : FileId
  pub messages_used : ℕ

pub record RemoteExtendedAttributesResult : Type 0 where
  pub file_id : FileId
  pub entries : List FileFullEaInformation
  pub messages_used : ℕ

pub record RemoteSecurityDescriptorResult : Type 0 where
  pub file_id : FileId
  pub descriptor : List ℕ
  pub messages_used : ℕ

-- metadataOpenOptions
unfoldable pub metadata_open_options : List ℕ → ℕ → CreateRequestOptions
metadata_open_options path access = create_options path access file_attribute_normal file_open 0

-- Is one of these bits of a `securityInformation` set?
unfoldable pub names_part : ℕ → ℕ → Bool
names_part information part = not (bit_and information part == 0)

-- securityQueryAccess: the SACL is the part 8.
unfoldable pub security_query_access : ℕ → ℕ
security_query_access information =
    read_control_access
    + file_read_attributes
    + (if names_part information 8 then access_system_security else 0)

-- securitySetAccess: the owner is the part 1, the group 2, the DACL 4.
unfoldable pub security_set_access : ℕ → ℕ
security_set_access information =
    file_read_attributes
    + (if names_part information 1 || names_part information 2 then write_owner_access else 0)
    + (if names_part information 4 then write_dac_access else 0)
    + (if names_part information 8 then access_system_security else 0)

module _ (message_id tree_id session_id : ℕ) where
  -- openObject, whose failures count one message.
  unfoldable pub open_counted : CreateRequestOptions → Client (Ending CreateResponse)
  open_counted options =
      exchange_decoded 1 (build_create_request options message_id tree_id session_id)
        decode_create_response

  unfoldable pub close_mutation : FileId → Client (Ending RemoteMetadataMutationResult)
  close_mutation f =
      call 3 (close (close_options f) message_id tree_id session_id)
        λ closed. finish (returned (success (record { file_id = f; messages_used = 3 })))

module _ (message_id tree_id session_id : ℕ) (path : List ℕ) where
  -- The body that setBasicInformation, setExtendedAttributes and setSecurityDescriptor share.
  unfoldable pub set_metadata : ℕ → ℕ → ℕ → ℕ → Built → Client (Ending RemoteMetadataMutationResult)
  set_metadata access info_type file_info_class additional buffer =
      unless_cancelled "SMB metadata operation was cancelled." (
        call 1 (open_counted message_id tree_id session_id (metadata_open_options path access))
          λ created. unless_cancelled "SMB metadata operation was cancelled." (
            with_bytes buffer λ bytes.
              call 2
                (set_info (set_options created.file_id info_type file_info_class bytes additional)
                  (message_id + 1) tree_id session_id)
                λ changed. close_mutation (message_id + 2) tree_id session_id created.file_id))

  -- The body that listExtendedAttributes and querySecurityDescriptor share, with what each makes of
  -- the returned bytes before the CLOSE.
  unfoldable pub query_metadata {ℓ κ} :
      {A : Type ℓ} {B : Type κ}
      → String
      → ℕ
      → ℕ
      → ℕ
      → ℕ
      → (List ℕ → DecodeResult A)
      → (FileId → A → B)
      → Client (Ending B)
  query_metadata message access info_type file_info_class additional decode result =
      unless_cancelled message (
        call 1 (open_counted message_id tree_id session_id (metadata_open_options path access))
          λ created. unless_cancelled message (
            call 2
              (query_info (query_options created.file_id info_type file_info_class 65536 additional)
                (message_id + 1) tree_id session_id)
              λ response. decoded 2 (decode response.buffer) λ value.
                call 3 (close (close_options created.file_id) (message_id + 2) tree_id session_id)
                  λ closed. finish (returned (success (result created.file_id value)))))

  unfoldable pub set_basic_information :
      FileBasicInformation → Client (Ending RemoteMetadataMutationResult)
  set_basic_information info =
      set_metadata (file_write_attributes + file_read_attributes) info_type_file 4 0
        (built (build_file_basic_information info))

  unfoldable pub list_extended_attributes : Client (Ending RemoteExtendedAttributesResult)
  list_extended_attributes =
      query_metadata "SMB EA query was cancelled." (file_read_ea + file_read_attributes)
        info_type_file 0xf 0 decode_file_full_ea_information
        (λ f entries. record { file_id = f; entries = entries; messages_used = 3 })

  unfoldable pub set_extended_attributes :
      List FileFullEaInformation → Client (Ending RemoteMetadataMutationResult)
  set_extended_attributes entries =
      set_metadata (file_write_ea + file_read_attributes) info_type_file 0xf 0
        (build_file_full_ea_information entries)

  -- An attribute with no value is removed.
  unfoldable pub remove_extended_attribute : List ℕ → Client (Ending RemoteMetadataMutationResult)
  remove_extended_attribute name =
      set_extended_attributes (record { name = name; value = []; need_ea = false } ∷ [])

  unfoldable pub query_security_descriptor : ℕ → Client (Ending RemoteSecurityDescriptorResult)
  query_security_descriptor information =
      query_metadata "SMB security descriptor query was cancelled."
        (security_query_access information) info_type_security 0 information success
        (λ f bytes. record { file_id = f; descriptor = bytes; messages_used = 3 })

  unfoldable pub set_security_descriptor : ℕ → List ℕ → Client (Ending RemoteMetadataMutationResult)
  set_security_descriptor information descriptor =
      set_metadata (security_set_access information) info_type_security 0 information
        (built descriptor)
