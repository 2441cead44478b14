-- ===== src/RemoteService/Service/Answers.antt =====
-- What the requests of src/mccr-gtk/mui-remote-service.c come to.
use Prim.Native.String.{String}
use mccr.Prelude.{◌≡◌, Bool, Option, some, ok, ◌>>=◌, Returns, returned, Returns-bind, Returns-if}
use mccr.Prelude.Bytes.{Bytes}
use mccr.Prelude.Text.{c_string}
use mccr.RemoteService.{Document, Xml}
use mccr.RemoteService.Request.{
  build_get_key_list_request, build_get_key_load_command_request, build_get_command_list_request,
  build_get_command_by_ksn_request, build_get_command_by_mut_request, common_list_request_build,
}
use mccr.RemoteService.Response.Infos.{CommandInfo}
use mccr.RemoteService.Response.Parse.{
  Parsed, key_is_complete, command_is_complete, parse_get_key_list_response,
  parse_get_key_load_command_response, parse_get_command_list_response,
  parse_get_command_by_ksn_response, parse_get_command_by_mut_response,
}
use mccr.RemoteService.Response.Outcome.{
  Decided, refused, parse_get_key_list_response-Decided, parse_command_responses-Decided,
}
use mccr.RemoteService.Service.{
  Service, Connection, Body, no_body, body, http_request, request, finish, get_key_list,
  get_key_load_command, get_command_list, get_command_by_ksn, get_command_by_mut,
}

-- the XML library writes every document to memory
abbrev pub AlwaysDumps : {Doc Node : Type 0} → Xml Doc Node → Type 0
AlwaysDumps xml =
    (document : Document) → (text : Bytes) × (xml.doc_dump_memory document ≡ some text)

finish-Decided :
    {I : Type 0} (is_complete : I → Bool) (parse : Bytes → Parsed I)
    → ((str : Bytes) → Decided is_complete (parse str))
    → (answer : Body) → Decided is_complete (finish parse answer)
unfolding finish
finish-Decided is_complete parse decided (no_body error) = refused error
finish-Decided is_complete parse decided (body str) = decided (c_string str)

module _ {I : Type 0} (connection : Connection) (self : Service) where
  -- A request that could be built is answered, by the network or the resources.
  request-Decided :
      (is_complete : I → Bool) (parse : Bytes → Parsed I) (resource action : String)
      (built : Option Bytes) (text : Bytes)
      → built ≡ some text
      → ((str : Bytes) → Decided is_complete (parse str))
      → Returns
          (Decided is_complete)
          (request connection self resource action built >>= λ answer. ok (finish parse answer))
  unfolding request http_request
  request-Decided is_complete parse resource action built text e decided = rw e (
      Returns-bind {P = λ answer. Unit {0}} _
        (Returns-if connection.no_connection _ _ (λ e'. returned tt) (λ e'. returned tt))
        (λ answer u. returned (finish-Decided is_complete parse decided answer)))

module _ {Doc Node : Type 0} (xml : Xml Doc Node) (dumps : AlwaysDumps xml)
    (connection : Connection) (self : Service) where
  -- If the XML library writes every document to memory: however the network or the built-in resources
  -- answer, getting the list of keys returns, either NULL with an error or an array with none, and every
  -- key in the array has an id.
  pub get_key_list-Decided : Returns (Decided key_is_complete) (get_key_list xml connection self)
  unfolding get_key_list build_get_key_list_request common_list_request_build
  get_key_list-Decided =
      let (text, e) = dumps _ in
      request-Decided connection self key_is_complete (parse_get_key_list_response xml) _ _ _ text e
        (parse_get_key_list_response-Decided xml)

  -- If the XML library writes every document to memory: however the network or the built-in resources
  -- answer, each of the four requests for commands returns, either NULL with an error or an array with
  -- none, and every command in the array has a name and a value.
  pub get_commands-Decided :
      (first second third : Option Bytes)
      → Returns
          (Decided command_is_complete)
          (get_key_load_command xml connection self first second third)
        × Returns (Decided command_is_complete) (get_command_list xml connection self)
        × Returns
            (Decided command_is_complete)
            (get_command_by_ksn xml connection self first second third)
        × Returns
            (Decided command_is_complete)
            (get_command_by_mut xml connection self first second third)
  unfolding get_key_load_command get_command_list get_command_by_ksn get_command_by_mut
      build_get_key_load_command_request build_get_command_list_request
      build_get_command_by_ksn_request build_get_command_by_mut_request common_list_request_build
  get_commands-Decided first second third =
      let parsed = parse_command_responses-Decided xml in
      (
        answered (parse_get_key_load_command_response xml) _ _ _ (λ str. (parsed str).0),
        answered (parse_get_command_list_response xml) _ _ _ (λ str. (parsed str).1),
        answered (parse_get_command_by_ksn_response xml) _ _ _ (λ str. (parsed str).2),
        answered (parse_get_command_by_mut_response xml) _ _ _ (λ str. (parsed str).3),
      )
    where
      answered :
          (parse : Bytes → Parsed CommandInfo) (resource action : String) (document : Document)
          → ((str : Bytes) → Decided command_is_complete (parse str))
          → Returns (Decided command_is_complete) (
              request connection self resource action (xml.doc_dump_memory document) >>= λ answer.
              ok (finish parse answer))
      answered parse resource action document decided =
          let (text, e) = dumps document in
          request-Decided connection self command_is_complete parse resource action
            (xml.doc_dump_memory document) text e decided
