-- ===== src/RemoteService.antt =====
-- The messages to and from the remote service (src/mccr-gtk/mui-remote-service-utils.c). The XML library
-- is a parameter.
pub mod Request
pub mod Response
pub mod Service
use Prim.Native.String.{String}
use mccr.Prelude.{Bool, List, [], ◌∷◌, Option}
use mccr.Prelude.Bytes.{Bytes}

pub data Namespace : Type 0 where
  soap_envelope remote_services_v2 remote_services_v2_core : Namespace

-- `namespace_definitions`: the prefix and the address
abbrev pub prefix : Namespace → String
prefix soap_envelope = "senv"
prefix remote_services_v2 = "rs2"
prefix remote_services_v2_core = "rs2c"

abbrev pub href : Namespace → String
href soap_envelope = "http://schemas.xmlsoap.org/soap/envelope/"
href remote_services_v2 = "http://www.magensa.net/RemoteServices/v2/"
href remote_services_v2_core = "http://schemas.datacontract.org/2004/07/RemoteServicesv2.Core"

abbrev pub all_namespaces : List Namespace
all_namespaces = soap_envelope ∷ remote_services_v2 ∷ remote_services_v2_core ∷ []

-- An element that is built: its namespace, its name, its content and its children, in their order.
mutual
  pub data Element : Type 0 where
    element : Namespace → String → Option Bytes → Elements → Element

  pub data Elements : Type 0 where
    no_elements : Elements
    and_elements : Element → Elements → Elements

-- A document: the namespaces that its root declares, and the root.
pub record Document : Type 0 where
  pub namespaces : List Namespace
  pub root : Element

-- libxml2, as far as the messages use it: a document read from memory, an XPath expression over it
-- with the namespaces that have been registered, and the nodes that it selects.
pub record Xml (Doc Node : Type 0) : Type 0 where
  pub doc_dump_memory : Document → Option Bytes
  pub read_memory : Bytes → Option Doc
  pub register_ns : Doc → String → String → Bool
  pub eval_expression : Doc → String → Option (List Node)
  pub is_element : Node → Bool
  pub name : Node → Option String
  pub children : Node → List Node
  pub get_content : Node → Option Bytes
