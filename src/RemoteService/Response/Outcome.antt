-- ===== src/RemoteService/Response/Outcome.antt =====
-- What the functions of src/mccr-gtk/mui-remote-service-utils.c that read a response return.
use Prim.Native.String.{String}
use mccr.Prelude.{◌≡◌, Bool, true, not, List, [], ◌∷◌, Option, none, some, if_cases}
use mccr.Prelude.Bytes.{Bytes}
use mccr.Prelude.Text.{Text}
use mccr.RemoteService.{Xml, all_namespaces}
use mccr.RemoteService.Response.{Members, read_children, read_nodes}
use mccr.RemoteService.Response.Infos.{key_members, command_members}
use mccr.RemoteService.Response.Parse.{
  Parsed, unreadable, readable, key_is_complete, command_is_complete, register_namespaces,
  evaluated, registered, parsed, parse_response, common_command_info_build_array,
  parse_get_key_list_response, parse_get_key_load_command_response, parse_get_command_list_response,
  parse_get_command_by_ksn_response, parse_get_command_by_mut_response,
}

abbrev pub AllComplete : {I : Type 0} → (I → Bool) → List I → Type 0
AllComplete is_complete [] = Unit
AllComplete is_complete (info ∷ infos) = (is_complete info ≡ true) × AllComplete is_complete infos

-- NULL with an error, or an array of complete structures with no error
pub data Decided {I : Type 0} (is_complete : I → Bool) : Parsed I → Type 0 where
  refused : (error : Text) → Decided is_complete (unreadable error)
  accepted : {infos : List I} → AllComplete is_complete infos → Decided is_complete (readable infos)

module _ {Doc Node I F : Type 0} (xml : Xml Doc Node) (members : Members I F)
    (is_complete : I → Bool) where
  read_nodes-AllComplete :
      (nodes : List Node) → AllComplete is_complete (read_nodes xml members is_complete nodes)
  unfolding read_nodes
  read_nodes-AllComplete [] = tt
  read_nodes-AllComplete (node ∷ nodes) =
      let rest = read_nodes-AllComplete nodes in
      if_cases (AllComplete is_complete) (not (xml.is_element node)) _ _ (λ e. rest)
        (λ e.
          if_cases (AllComplete is_complete)
            (is_complete (read_children xml members members.nothing (xml.children node))) _ _
            (λ complete. (complete, rest)) (λ incomplete. rest))

module _ {Doc Node I : Type 0} (xml : Xml Doc Node) (is_complete : I → Bool)
    (read : List Node → List I) (expression : String)
    (complete : (nodes : List Node) → AllComplete is_complete (read nodes)) where
  evaluated-Decided :
      (nodes : Option (List Node)) → Decided is_complete (evaluated xml read expression nodes)
  unfolding evaluated
  evaluated-Decided none = refused _
  evaluated-Decided (some nodes) = accepted (complete nodes)

  registered-Decided :
      (doc : Doc) (error : Option Text)
      → Decided is_complete (registered xml read expression doc error)
  unfolding registered
  registered-Decided doc (some error) = refused error
  registered-Decided doc none = evaluated-Decided (xml.eval_expression doc expression)

  parsed-Decided : (doc : Option Doc) → Decided is_complete (parsed xml read expression doc)
  unfolding parsed
  parsed-Decided none = refused _
  parsed-Decided (some doc) = registered-Decided doc (register_namespaces xml doc all_namespaces)

  parse_response-Decided :
      (str : Bytes) → Decided is_complete (parse_response xml read expression str)
  unfolding parse_response
  parse_response-Decided str = parsed-Decided (xml.read_memory str)

module _ {Doc Node : Type 0} (xml : Xml Doc Node) (str : Bytes) where
  -- Whatever the XML library makes of a response, the function for the list of keys returns NULL and sets
  -- an error, or returns an array and sets none, and every key in the array has an id.
  pub parse_get_key_list_response-Decided :
      Decided key_is_complete (parse_get_key_list_response xml str)
  unfolding parse_get_key_list_response
  parse_get_key_list_response-Decided =
      parse_response-Decided xml key_is_complete _ _
        (read_nodes-AllComplete xml key_members key_is_complete) str

  command_response-Decided :
      (expression : String)
      → Decided command_is_complete
          (parse_response xml (common_command_info_build_array xml) expression str)
  unfolding common_command_info_build_array
  command_response-Decided expression =
      parse_response-Decided xml command_is_complete _ expression
        (read_nodes-AllComplete xml command_members command_is_complete) str

  -- Whatever the XML library makes of a response, each of the four functions for commands returns NULL
  -- and sets an error, or returns an array and sets none, and every command in the array has a name and
  -- a value.
  pub parse_command_responses-Decided :
      Decided command_is_complete (parse_get_key_load_command_response xml str)
      × Decided command_is_complete (parse_get_command_list_response xml str)
      × Decided command_is_complete (parse_get_command_by_ksn_response xml str)
      × Decided command_is_complete (parse_get_command_by_mut_response xml str)
  unfolding parse_get_key_load_command_response parse_get_command_list_response
      parse_get_command_by_ksn_response parse_get_command_by_mut_response
  parse_command_responses-Decided = (
    command_response-Decided _,
    command_response-Decided _,
    command_response-Decided _,
    command_response-Decided _,
  )
