-- ===== src/Mdns/Replies.antt =====
-- What a server replies to a query (handleQuery of server.go).
use discovery_self.Base.{
  ℕ, List, [], ◌∷◌, ◌++◌, Option, some, Text, ◌≡◌, refl, sym, ◌∙◌, Bool, if◌then◌else◌, flat_map,
  append_assoc, append-nil,
}
use discovery_self.Mdns.{Question, Query, Answer}
use discovery_self.Mdns.Zone.{MdnsService, records}
use discovery_self.Mdns.Server.{
  Server, handle_question, handle_questions, handle_query, send_response,
}

-- The records of the questions, in their order.
abbrev pub all_records : MdnsService → List Question → List Answer
all_records m = flat_map (records m)

handle_questions_lem :
    (m : MdnsService) (qs : List Question) (answers : List Answer)
    → handle_questions (some m) qs answers ≡ answers ++ all_records m qs
unfolding handle_questions handle_question
handle_questions_lem m [] answers = sym (append-nil answers)
handle_questions_lem m (q ∷ qs) answers =
    handle_questions_lem m qs (answers ++ records m q)
    ∙ append_assoc answers (records m q) (all_records m qs)

-- A server of a service that is asked questions for which it has records replies by one datagram,
-- which holds the records of all of them in their order, packed as the reply to that query, to the
-- asker, over its listener of the family of the asker's address.
pub handle_query-replies :
    (pack : Query → List Answer → Option Text) (unpack : Text → Option Query)
    (is_ipv4 : Text → Bool) (s : Server) (m : MdnsService) (query : Query) (from bytes : Text)
    (c : ℕ) (a : Answer) (more : List Answer)
    → s.zone ≡ some m
    → all_records m query.questions ≡ a ∷ more
    → pack query (a ∷ more) ≡ some bytes
    → (if is_ipv4 from then s.ipv4_list else s.ipv6_list) ≡ some c
    → handle_query pack unpack is_ipv4 s query from
      ≡ record { via = c; bytes = bytes; to = from } ∷ []
unfolding handle_query send_response
handle_query-replies pack unpack is_ipv4 s m query from bytes c a more z recs packed by =
    rw (z, handle_questions_lem m query.questions []) (rw recs (rw (packed, by) refl))
