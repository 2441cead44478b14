-- ===== src/RemoteService/Service.antt =====
-- src/mccr-gtk/mui-remote-service.c: a request is sent over HTTP and its response is read and parsed. An
-- asynchronous call and its finish function are one function, of what the network delivers.
pub mod Answers
use Prim.Native.String.{String}
use mccr.Prelude.{
  Bool, true, false, not, List, [], ◌∷◌, ◌++◌, Option, none, some, Run, ok, fault, ◌>>=◌,
  if◌then◌else◌,
}
use mccr.Prelude.Bytes.{Bytes}
use mccr.Prelude.Text.{Text, literal, c_string}
use mccr.RemoteService.{Xml}
use mccr.RemoteService.Request.{
  Account, build_get_key_list_request, build_get_key_load_command_request,
  build_get_command_list_request, build_get_command_by_ksn_request,
  build_get_command_by_mut_request,
}
use mccr.RemoteService.Response.Infos.{KeyInfo, CommandInfo}
use mccr.RemoteService.Response.Parse.{
  Parsed, unreadable, parse_get_key_list_response, parse_get_key_load_command_response,
  parse_get_command_list_response, parse_get_command_by_ksn_response,
  parse_get_command_by_mut_response,
}

-- `MuiRemoteServicePrivate`, without the session
pub record Service : Type 0 where
  pub url : Option Bytes
  pub account : Account

-- REPLACE_FIELD: `same` is whether the texts are equal
unfoldable pub replace_field : (Bytes → Bytes → Bool) → Option Bytes → Option Bytes → Option Bytes
replace_field same none none = none
replace_field same none (some text) = some text
replace_field same (some before) none = none
replace_field same (some before) (some text) =
    if not (same before text) then some text else some before

-- mui_remote_service_set_common_request_fields
unfoldable pub set_common_request_fields :
    (Bytes → Bytes → Bool) → Service → Option Bytes → Account → Service
unfolding replace_field
set_common_request_fields same self url account = record {
  url = replace_field same self.url url;
  account = record {
    customer_code = replace_field same self.account.customer_code account.customer_code;
    username = replace_field same self.account.username account.username;
    password = replace_field same self.account.password account.password;
    billing_label = replace_field same self.account.billing_label account.billing_label;
    customer_transaction_id =
        replace_field same self.account.customer_transaction_id account.customer_transaction_id;
  };
}

-- What one read of the stream of a response comes to; a read of no bytes is the end.
pub data Received : Type 0 where
  chunk : Bytes → Received
  ended : Received
  failed : Text → Received

-- What the network makes of a request: no message for the address, an error, or a stream. What is
-- behind the last read is the end of the stream.
pub data Delivery : Type 0 where
  invalid_url : Delivery
  not_sent : Text → Delivery
  stream : List Received → Delivery

-- what a finish function gets: an error, or the body
pub data Body : Type 0 where
  no_body : Text → Body
  body : Bytes → Body

-- the loop of session_send_async_ready, behind what has been read
unfoldable pub read_stream : Bytes → List Received → Body
read_stream str [] = body str
read_stream str (chunk [] ∷ rest) = body str
read_stream str (chunk (b ∷ bytes) ∷ rest) = read_stream (str ++ b ∷ bytes) rest
read_stream str (ended ∷ rest) = body str
read_stream str (failed error ∷ rest) = no_body error

-- session_send_async_ready
unfoldable pub session_send_async_ready : Delivery → Body
unfolding read_stream
session_send_async_ready invalid_url = no_body (literal "Invalid URI format" ∷ [])
session_send_async_ready (not_sent error) = no_body error
session_send_async_ready (stream reads) = read_stream [] reads

-- Whether the variable MUI_TEST_NO_CONNECTION is set, the resources that are built in, and the network.
pub record Connection : Type 0 where
  pub no_connection : Bool
  pub lookup_data : String → Option Bytes
  pub resource_error : Text
  pub send : Option Bytes → String → Bytes → Delivery

module _ (connection : Connection) (self : Service) where
  -- remote_service_http_request: the length of a body that could not be built is a fault
  unfoldable pub http_request : String → Option Bytes → Run Body
  unfolding session_send_async_ready
  http_request soap_action none = fault
  http_request soap_action (some request_body) =
      ok (session_send_async_ready (connection.send self.url soap_action request_body))

  -- remote_service_test_request: the resource with a NUL behind it
  abbrev pub test_request : String → Body
  test_request path = elim (connection.lookup_data path) [
    | none ↦ no_body connection.resource_error
    | some bytes ↦ body (bytes ++ 0 ∷ [])
  ]

  -- the choice that every request and every finish function makes
  unfoldable pub request : String → String → Option Bytes → Run Body
  unfolding http_request
  request resource soap_action built =
      if connection.no_connection
      then ok (test_request resource)
      else http_request soap_action built

-- The end of the finish functions; the body is read up to its first NUL.
unfoldable pub finish : {I : Type 0} → (Bytes → Parsed I) → Body → Parsed I
finish parse (no_body error) = unreadable error
finish parse (body str) = parse (c_string str)

module _ {Doc Node : Type 0} (xml : Xml Doc Node) (connection : Connection) (self : Service) where
  -- mui_remote_service_get_key_list and its finish function
  unfoldable pub get_key_list : Run (Parsed KeyInfo)
  unfolding request finish
  get_key_list = do
    answer ←
        request connection self "/es/aleksander/mccr-gtk/test/get-key-list-response.xml"
          "http://www.magensa.net/RemoteServices/v2/ISCRAv2/GetKeyList"
          (build_get_key_list_request xml self.account)
    ok (finish (parse_get_key_list_response xml) answer)

  -- mui_remote_service_get_key_load_command and its finish function
  unfoldable pub get_key_load_command :
      Option Bytes → Option Bytes → Option Bytes → Run (Parsed CommandInfo)
  unfolding request finish
  get_key_load_command ksn key_id mut = do
    answer ←
        request connection self "/es/aleksander/mccr-gtk/test/get-key-load-command-response.xml"
          "http://www.magensa.net/RemoteServices/v2/ISCRAv2/GetKeyLoadCommand"
          (build_get_key_load_command_request xml self.account ksn key_id mut)
    ok (finish (parse_get_key_load_command_response xml) answer)

  -- mui_remote_service_get_command_list and its finish function
  unfoldable pub get_command_list : Run (Parsed CommandInfo)
  unfolding request finish
  get_command_list = do
    answer ←
        request connection self "/es/aleksander/mccr-gtk/test/get-command-list-response.xml"
          "http://www.magensa.net/RemoteServices/v2/ISCRAv2/GetCommandList"
          (build_get_command_list_request xml self.account)
    ok (finish (parse_get_command_list_response xml) answer)

  -- mui_remote_service_get_command_by_ksn and its finish function
  unfoldable pub get_command_by_ksn :
      Option Bytes → Option Bytes → Option Bytes → Run (Parsed CommandInfo)
  unfolding request finish
  get_command_by_ksn command_id ksn key_id = do
    answer ←
        request connection self "/es/aleksander/mccr-gtk/test/get-command-by-ksn-response.xml"
          "http://www.magensa.net/RemoteServices/v2/ISCRAv2/GetCommandByKSN"
          (build_get_command_by_ksn_request xml self.account command_id ksn key_id)
    ok (finish (parse_get_command_by_ksn_response xml) answer)

  -- mui_remote_service_get_command_by_mut and its finish function
  unfoldable pub get_command_by_mut :
      Option Bytes → Option Bytes → Option Bytes → Run (Parsed CommandInfo)
  unfolding request finish
  get_command_by_mut command_id ksn mut = do
    answer ←
        request connection self "/es/aleksander/mccr-gtk/test/get-command-by-mut-response.xml"
          "http://www.magensa.net/RemoteServices/v2/ISCRAv2/GetCommandByMUT"
          (build_get_command_by_mut_request xml self.account command_id ksn mut)
    ok (finish (parse_get_command_by_mut_response xml) answer)
