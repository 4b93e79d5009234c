-- ===== src/Mdns/Server.antt =====
-- server.go: the process that answers the queries of others.
use discovery_self.Base.{
  ℕ, List, [], ◌∷◌, ◌++◌, Option, none, some, Text, Bool, true, false, if◌then◌else◌,
}
use discovery_self.Mdns.{Question, Query, Answer}
use discovery_self.Mdns.Zone.{MdnsService, records}

-- A listener is a number, and nil is `none`.
pub record Server : Type 0 where
  pub zone : Option MdnsService
  pub ipv4_list : Option ℕ
  pub ipv6_list : Option ℕ
  pub shutdown : Bool

-- A datagram, with the listener that it leaves by.
pub record Datagram : Type 0 where
  pub via : ℕ
  pub bytes : Text
  pub to : Text

-- The listeners that `recv` is started on.
abbrev pub started : Option ℕ → List ℕ
started none = []
started (some c) = c ∷ []

-- NewServer, of what ListenMulticastUDP returns; `none` is its error.
unfoldable pub new_server : Option MdnsService → Option ℕ → Option ℕ → Option (Server × List ℕ)
new_server service none none = none
new_server service (some c) ipv6 = some (
  record { zone = service; ipv4_list = some c; ipv6_list = ipv6; shutdown = false },
  c ∷ started ipv6,
)
new_server service none (some d) =
    some (record { zone = service; ipv4_list = none; ipv6_list = some d; shutdown = false }, d ∷ [])

-- Shutdown, with the listeners that it closes.
unfoldable pub shut_down : Server → Server × List ℕ
shut_down s =
    if s.shutdown
    then (s, [])
    else (record s { shutdown = true }, started s.ipv4_list ++ started s.ipv6_list)

unfoldable pub handle_question : Option MdnsService → Question → List Answer → List Answer
handle_question none q answers = answers
handle_question (some service) q answers = answers ++ records service q

unfoldable pub handle_questions : Option MdnsService → List Question → List Answer → List Answer
unfolding handle_question
handle_questions service [] answers = answers
handle_questions service (q ∷ qs) answers =
    handle_questions service qs (handle_question service q answers)

-- The listener of the family of the asker's address. A write on a nil one is an error that is logged.
via_listener : Option ℕ → Text → Text → List Datagram
via_listener none bytes to = []
via_listener (some c) bytes to = record { via = c; bytes = bytes; to = to } ∷ []

send_packed : Server → Text → Bool → Option Text → List Datagram
unfolding via_listener
send_packed s to is_ipv4 none = []
send_packed s to is_ipv4 (some bytes) =
    via_listener (if is_ipv4 then s.ipv4_list else s.ipv6_list) bytes to

-- Of miekg/dns: `pack q answers` is Msg.Pack of the message that SetReply makes of the query `q`, with
-- these answers; `unpack` is Msg.Unpack of a query. And whether an address is an IPv4 one.
module _ (pack : Query → List Answer → Option Text) (unpack : Text → Option Query)
    (is_ipv4 : Text → Bool) where
  unfoldable pub send_response : Server → Query → List Answer → Text → List Datagram
  unfolding send_packed
  send_response s query answers from = send_packed s from (is_ipv4 from) (pack query answers)

  send_some : Server → Query → Text → List Answer → List Datagram
  unfolding send_response
  send_some s query from [] = []
  send_some s query from (a ∷ answers) = send_response s query (a ∷ answers) from

  unfoldable pub handle_query : Server → Query → Text → List Datagram
  unfolding send_some handle_questions
  handle_query s query from = send_some s query from (handle_questions s.zone query.questions [])

  handle_unpacked : Server → Text → Option Query → List Datagram
  handle_unpacked s from none = []
  handle_unpacked s from (some query) = handle_query s query from

  unfoldable pub parse_packet : Server → Text → Text → List Datagram
  unfolding handle_unpacked
  parse_packet s packet from = handle_unpacked s from (unpack packet)

  -- The loop of recv over the packets that are read, with their senders; a read that fails is passed
  -- over.
  unfoldable pub recv : Server → List (Option (Text × Text)) → List Datagram
  unfolding parse_packet
  recv s [] = []
  recv s (none ∷ reads) = recv s reads
  recv s (some (packet, from) ∷ reads) =
      if s.shutdown then [] else parse_packet s packet from ++ recv s reads
