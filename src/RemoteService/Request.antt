-- ===== src/RemoteService/Request.antt =====
-- The requests of src/mccr-gtk/mui-remote-service-utils.c.
use Prim.Native.String.{String}
use mccr.Prelude.{◌≡◌, refl, Option, none, some, [], ◌∷◌}
use mccr.Prelude.Bytes.{Bytes}
use mccr.RemoteService.{
  soap_envelope, remote_services_v2, remote_services_v2_core, all_namespaces, Element, element,
  Elements, no_elements, and_elements, Document, Xml,
}

-- what every request names
pub record Account : Type 0 where
  pub customer_code : Option Bytes
  pub username : Option Bytes
  pub password : Option Bytes
  pub billing_label : Option Bytes
  pub customer_transaction_id : Option Bytes

-- `xmlNewChild` of an element with a text
abbrev pub field : String → Option Bytes → Element
field name content = element remote_services_v2_core name content no_elements

-- a child that is left out where its text is NULL
abbrev pub field_if_given : String → Option Bytes → Elements → Elements
field_if_given name none rest = rest
field_if_given name (some content) rest = and_elements (field name (some content)) rest

-- the envelope, the body and the command around the children of a request
abbrev pub envelope : String → Elements → Document
envelope command children = record {
  namespaces = all_namespaces;
  root = element soap_envelope "Envelope" none (
      and_elements
        (element soap_envelope "Body" none (
          and_elements
            (element remote_services_v2 command none
              (and_elements (element remote_services_v2 "request" none children) no_elements))
            no_elements))
        no_elements);
}

-- the account, in front of the other children of a request
abbrev pub account_and : Account → Elements → Elements
account_and account rest =
    and_elements
      (element remote_services_v2_core "Authentication" none (
        and_elements (field "CustomerCode" account.customer_code) (
          and_elements (field "Password" account.password)
            (and_elements (field "Username" account.username) no_elements))))
      (and_elements (field "BillingLabel" account.billing_label)
        (and_elements (field "CustomerTransactionID" account.customer_transaction_id) rest))

-- the document of common_list_request_build
abbrev pub list_request :
    String
    → Account
    → Option Bytes
    → Option Bytes
    → Option Bytes
    → Option Bytes
    → Option Bytes
    → Document
list_request command account execution_type command_id ksn key_id mut = envelope command (
    account_and account (
      field_if_given "ExecutionType" execution_type (
        field_if_given "CommandID" command_id (
          field_if_given "KSN" ksn
            (field_if_given "KeyID" key_id (field_if_given "UpdateToken" mut no_elements))))))

-- "ALL"
abbrev all_types : Bytes
all_types = b'A' ∷ b'L' ∷ b'L' ∷ []

module _ {Doc Node : Type 0} (xml : Xml Doc Node) where
  -- common_list_request_build
  unfoldable pub common_list_request_build :
      String
      → Account
      → Option Bytes
      → Option Bytes
      → Option Bytes
      → Option Bytes
      → Option Bytes
      → Option Bytes
  common_list_request_build command account execution_type command_id ksn key_id mut =
      xml.doc_dump_memory (list_request command account execution_type command_id ksn key_id mut)

  -- mui_remote_service_utils_build_get_key_list_request
  unfoldable pub build_get_key_list_request : Account → Option Bytes
  build_get_key_list_request account =
      common_list_request_build "GetKeyList" account none none none none none

  -- mui_remote_service_utils_build_get_key_load_command_request, which builds its document itself
  unfoldable pub build_get_key_load_command_request :
      Account → Option Bytes → Option Bytes → Option Bytes → Option Bytes
  build_get_key_load_command_request account ksn key_id mut = xml.doc_dump_memory (
      envelope "GetKeyLoadCommand" (
        account_and account (
          and_elements (field "KSN" ksn) (
            and_elements (field "KeyID" key_id)
              (and_elements (field "UpdateToken" mut) no_elements)))))

  -- mui_remote_service_utils_build_get_command_list_request
  unfoldable pub build_get_command_list_request : Account → Option Bytes
  build_get_command_list_request account =
      common_list_request_build "GetCommandList" account (some all_types) none none none none

  -- mui_remote_service_utils_build_get_command_by_ksn_request
  unfoldable pub build_get_command_by_ksn_request :
      Account → Option Bytes → Option Bytes → Option Bytes → Option Bytes
  build_get_command_by_ksn_request account command_id ksn key_id =
      common_list_request_build "GetCommandByKSN" account none command_id ksn key_id none

  -- mui_remote_service_utils_build_get_command_by_mut_request
  unfoldable pub build_get_command_by_mut_request :
      Account → Option Bytes → Option Bytes → Option Bytes → Option Bytes
  build_get_command_by_mut_request account command_id ksn mut =
      common_list_request_build "GetCommandByMUT" account none command_id ksn none mut

  -- With a key serial number, a key id and an update token, the request for a key load command is the
  -- one that the common function builds for this command from the same texts.
  pub build_get_key_load_command_request-common :
      (account : Account) (ksn key_id mut : Bytes)
      → build_get_key_load_command_request account (some ksn) (some key_id) (some mut)
        ≡ common_list_request_build "GetKeyLoadCommand" account none none
            (some ksn)
            (some key_id)
            (some mut)
  unfolding build_get_key_load_command_request common_list_request_build
  build_get_key_load_command_request-common account ksn key_id mut = refl
