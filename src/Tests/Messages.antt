-- ===== src/Tests/Messages.antt =====
-- Messages of src/mccr-gtk/mui-remote-service-utils.c over a library that knows one document: a key with an
-- id that comes twice, a description and an element of another name.
use Prim.Native.String.{String}
use mccr.Prelude.{ℕ, zero, suc, ◌≡◌, refl, true, false, Returns, List, [], ◌∷◌, Option, none, some}
use mccr.RemoteService.{Xml}
use mccr.RemoteService.Response.{read_children}
use mccr.RemoteService.Response.Infos.{no_key, key_get, id_field, key_members}
use mccr.RemoteService.Response.Laws.{key_members-IsMembers}
use mccr.RemoteService.Response.Fields.{read_children-first_content}
use mccr.RemoteService.Response.Parse.{key_is_complete}
use mccr.RemoteService.Response.Outcome.{Decided}
use mccr.RemoteService.Service.{
  Service, Connection, stream, chunk, ended, body, read_stream, session_send_async_ready,
  get_key_list,
}
use mccr.RemoteService.Service.Answers.{get_key_list-Decided}

abbrev nth_name : List String → ℕ → Option String
nth_name [] node = none
nth_name (name ∷ names) zero = some name
nth_name (name ∷ names) (suc node) = nth_name names node

abbrev children_of : ℕ → List ℕ
children_of zero = 3 ∷ 1 ∷ 2 ∷ 4 ∷ []
children_of (suc node) = []

abbrev one_key : Xml ℕ ℕ
one_key = record {
  doc_dump_memory = λ document. some [];
  read_memory = λ str. some 0;
  register_ns = λ doc prefix href. true;
  eval_expression = λ doc expression. some (0 ∷ []);
  is_element = λ node. true;
  name = nth_name ("Key" ∷ "ID" ∷ "Description" ∷ "Colour" ∷ "ID" ∷ []);
  children = children_of;
  get_content = λ node. some (node ∷ []);
}

read_children-first_content_example :
    key_get (read_children one_key key_members no_key (children_of 0)) id_field ≡ some (1 ∷ [])
read_children-first_content_example =
    read_children-first_content one_key key_members key_members-IsMembers (children_of 0) id_field

abbrev service : Service
service = record {
  url = some (b'h' ∷ []);
  account = record {
    customer_code = some (b'C' ∷ []);
    username = some (b'U' ∷ []);
    password = some (b'P' ∷ []);
    billing_label = none;
    customer_transaction_id = none;
  };
}

-- a network that answers in two chunks
abbrev network : Connection
network = record {
  no_connection = false;
  lookup_data = λ path. none;
  resource_error = [];
  send = λ url action text. stream (chunk (b'<' ∷ []) ∷ chunk (b'>' ∷ []) ∷ ended ∷ []);
}

get_key_list-Decided_example :
    Returns (Decided key_is_complete) (get_key_list one_key network service)
get_key_list-Decided_example = get_key_list-Decided one_key (λ document. ([], refl)) network service

-- the chunks make one body
two_chunks : session_send_async_ready (network.send none "" []) ≡ body (b'<' ∷ b'>' ∷ [])
unfolding session_send_async_ready read_stream
two_chunks = refl
