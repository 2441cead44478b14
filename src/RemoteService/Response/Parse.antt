-- ===== src/RemoteService/Response/Parse.antt =====
-- The functions of src/mccr-gtk/mui-remote-service-utils.c that read a response.
use Prim.Native.String.{String}
use mccr.Prelude.{Bool, not, ◌&&◌, List, [], ◌∷◌, Option, none, some, if◌then◌else◌}
use mccr.Prelude.Bytes.{Bytes}
use mccr.Prelude.Text.{Text, literal}
use mccr.Hid.Usages.{is_null}
use mccr.RemoteService.{Namespace, prefix, href, all_namespaces, Xml}
use mccr.RemoteService.Response.{read_nodes}
use mccr.RemoteService.Response.Infos.{KeyInfo, key_members, CommandInfo, command_members}

-- What a function returns: the array, or NULL, and the error that is set, if there is one.
pub record Parsed (I : Type 0) : Type 0 where
  pub array : Option (List I)
  pub error : Option Text

abbrev pub unreadable : {I : Type 0} → Text → Parsed I
unreadable error = record { array = none; error = some error }

abbrev pub readable : {I : Type 0} → List I → Parsed I
readable infos = record { array = some infos; error = none }

-- a key has an id, and a command a name and a value
abbrev pub key_is_complete : KeyInfo → Bool
key_is_complete info = not (is_null info.id)

abbrev pub command_is_complete : CommandInfo → Bool
command_is_complete info = not (is_null info.name) && not (is_null info.value)

module _ {Doc Node : Type 0} (xml : Xml Doc Node) where
  -- xpath_register_namespaces: the error of the first namespace that is refused
  unfoldable pub register_namespaces : Doc → List Namespace → Option Text
  register_namespaces doc [] = none
  register_namespaces doc (ns ∷ rest) =
      let later = register_namespaces doc rest in
      if not (xml.register_ns doc (prefix ns) (href ns))
      then some (literal "Couldn't register namespace: " ∷ literal (href ns) ∷ [])
      else later

  module _ {I : Type 0} (read : List Node → List I) (expression : String) where
    -- the end of a function: the nodes that the expression selects are read
    unfoldable pub evaluated : Option (List Node) → Parsed I
    evaluated none = unreadable (literal "Couldn't evaluate XPATH expression" ∷ [])
    evaluated (some nodes) = readable (read nodes)

    -- from the registration of the namespaces on
    unfoldable pub registered : Doc → Option Text → Parsed I
    unfolding evaluated
    registered doc (some error) = unreadable error
    registered doc none = evaluated (xml.eval_expression doc expression)

    -- from the reading of the text on
    unfoldable pub parsed : Option Doc → Parsed I
    unfolding registered
    parsed none = unreadable (literal "Couldn't read response into XML memory" ∷ [])
    parsed (some doc) = registered doc (register_namespaces doc all_namespaces)

    -- A response, down to the loop over the nodes, which `read` stands for.
    unfoldable pub parse_response : Bytes → Parsed I
    unfolding parsed
    parse_response str = parsed (xml.read_memory str)

  -- common_command_info_build_array
  unfoldable pub common_command_info_build_array : List Node → List CommandInfo
  common_command_info_build_array = read_nodes xml command_members command_is_complete

  -- mui_remote_service_utils_parse_get_key_list_response
  unfoldable pub parse_get_key_list_response : Bytes → Parsed KeyInfo
  unfolding parse_response
  parse_get_key_list_response =
      parse_response (read_nodes xml key_members key_is_complete)
        "/senv:Envelope/senv:Body/rs2:GetKeyListResponse/rs2:GetKeyListResult/rs2c:Keys/rs2c:Key"

  -- mui_remote_service_utils_parse_get_key_load_command_response
  unfoldable pub parse_get_key_load_command_response : Bytes → Parsed CommandInfo
  unfolding parse_response common_command_info_build_array
  parse_get_key_load_command_response =
      parse_response common_command_info_build_array
        "/senv:Envelope/senv:Body/rs2:GetKeyLoadCommandResponse/rs2:GetKeyLoadCommandResult/rs2c:Commands/rs2c:Command"

  -- mui_remote_service_utils_parse_get_command_list_response
  unfoldable pub parse_get_command_list_response : Bytes → Parsed CommandInfo
  unfolding parse_response common_command_info_build_array
  parse_get_command_list_response =
      parse_response common_command_info_build_array
        "/senv:Envelope/senv:Body/rs2:GetCommandListResponse/rs2:GetCommandListResult/rs2c:Commands/rs2c:Command"

  -- mui_remote_service_utils_parse_get_command_by_ksn_response
  unfoldable pub parse_get_command_by_ksn_response : Bytes → Parsed CommandInfo
  unfolding parse_response common_command_info_build_array
  parse_get_command_by_ksn_response =
      parse_response common_command_info_build_array
        "/senv:Envelope/senv:Body/rs2:GetCommandByKSNResponse/rs2:GetCommandByKSNResult/rs2c:Command"

  -- mui_remote_service_utils_parse_get_command_by_mut_response
  unfoldable pub parse_get_command_by_mut_response : Bytes → Parsed CommandInfo
  unfolding parse_response common_command_info_build_array
  parse_get_command_by_mut_response =
      parse_response common_command_info_build_array
        "/senv:Envelope/senv:Body/rs2:GetCommandByMUTResponse/rs2:GetCommandByMUTResult/rs2c:Command"
