-- ===== src/Server/Conversation/Tests.antt =====
-- Two commands and the beginning of a third, in three chunks.
use os_lab.Base.{◌≡◌, refl, none, arith, List, [], ◌∷◌, Str, Str-discrete, some, map, ℕ_discrete}
use os_lab.Pages
use os_lab.PagedCache.{init, add_key, get_key}
use os_lab.Dict.{find, put}
use os_lab.Texts.{strip}
use os_lab.Protocol.{bytes, CommandType, Command, format_response}
use os_lab.Protocol.Response.{ok_added, ok_value}
use os_lab.Server.{process_command, perform, answer_add, answer_get}
use os_lab.Server.Receive.{take_message, c_string}
use os_lab.Server.Connections.{
  ClientConnection, client_connection, TcpServer, tcp_server, sent_bytes,
}
use os_lab.Server.Data.{got, handle_client_data}
use os_lab.Server.Pipeline.{ArePrintable, answer_all}
use os_lab.Server.Answers.{sends_for}
use os_lab.Server.Conversation.{AreClean, after_answers, handle_client_data-texts}
use os_lab.Decimal.{to_string}

abbrev add_command : Command
add_command = record { type = CommandType.add; key = bytes "k"; value = bytes "hi" }

abbrev get_command : Command
get_command = record { type = CommandType.get; key = bytes "k"; value = [] }

abbrev commands : List Command
commands = add_command ∷ get_command ∷ []

abbrev part : Str
part = bytes "Method:G"

commands-ArePrintable : ArePrintable commands
commands-ArePrintable = (
  record {
    method = ground arith;
    key = record { line = omega arith; start = refl; end = refl };
    value = record { line = omega arith; start = refl; end = refl };
    none = λ w. ground arith;
  },
  (
    record {
      method = ground arith;
      key = record { line = omega arith; start = refl; end = refl };
      value = record { line = tt; start = refl; end = refl };
      none = λ w. refl;
    },
    tt,
  ),
)

incomplete : take_message part ≡ none
unfolding take_message strip
incomplete = refl

abbrev chunks : List Str
chunks =
    bytes "Method:ADD\r\nKey:k\r\nVal"
    ∷ bytes "ue:hi\r\n\r"
    ∷ bytes "\nMethod:GET\r\nKey:k\r\n\r\nMethod:G"
    ∷ []

clean : AreClean chunks
unfolding c_string
clean = (refl, (refl, (refl, tt)))

-- A client that has just connected.
abbrev client : ClientConnection
unfolding client_connection to_string
client = client_connection 5

abbrev server : TcpServer
unfolding tcp_server
server = record (tcp_server 3) { clients = (5, client) ∷ [] }

found : find ℕ_discrete 5 server.clients ≡ some client
unfolding find ℕ_discrete server
found = refl

nothing_buffered : client.buffer ≡ []
unfolding client client_connection
nothing_buffered = refl

handle_client_data-texts_example :
    let h = answer_all client.client_id 1 commands part server.cache in
    handle_client_data 5 (map got chunks) (sends_for h.answers []) 1 server
    ≡ some (after_answers 5 client server h part, map (sent_bytes 5) h.answers)
handle_client_data-texts_example =
    handle_client_data-texts 5 1 client server commands part chunks found nothing_buffered
      commands-ArePrintable incomplete clean refl

-- The second command reads what the first has added.
answered :
    (answer_all (bytes "client_5") 1 commands part (init 3)).answers
    ≡ format_response ok_added ∷ format_response (ok_value (bytes "hi")) ∷ []
unfolding process_command perform answer_add answer_get add_key get_key init Pages.init
    Pages.allocate_pages_linked Pages.calculate_pages_needed find put format_response Str-discrete
answered = refl
