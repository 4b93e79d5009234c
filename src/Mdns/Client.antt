-- ===== src/Mdns/Client.antt =====
-- client.go: a query, and the entries that it makes of the answers.
use discovery_self.Base.{
  ℕ, ◌+◌, List, [], ◌∷◌, ◌++◌, Option, none, some, Text, codes, text_eq, Bool, true, false, ◌&&◌,
  ◌||◌, not, if◌then◌else◌, ◌==◌, join,
}
use discovery_self.Step.{Result, ok, crash, nil_dereference, ◌>>=◌}
use discovery_self.Service.{lookup_path, insert_path, set_at}
use discovery_self.Mdns.{
  Question, Answer, ptr, srv, txt, a_record, aaaa_record, other_record, ptr_type,
}
use discovery_self.Mdns.Zone.{trim_dot}
use discovery_self.Discovery.{ServiceEntry}

pub record Entry : Type 0 where
  pub name : Text
  pub host : Text
  pub addr_v4 : Option Text
  pub addr_v6 : Option Text
  pub port : ℕ
  pub info : Text
  pub has_txt : Bool
  pub sent : Bool

abbrev pub is_some {ℓ} : {A : Type ℓ} → Option A → Bool
is_some none = false
is_some (some a) = true

unfoldable pub complete : Entry → Bool
complete e = (is_some e.addr_v4 || is_some e.addr_v6) && not (e.port == 0) && e.has_txt

-- The text of a nil address is "<nil>".
abbrev pub ip_text : Option Text → Text
ip_text none = codes "<nil>"
ip_text (some ip) = ip

-- What discovery.go reads of an entry.
abbrev pub service_entry : Entry → ServiceEntry
service_entry e = record {
  name = e.name;
  host = e.host;
  addr_v4 = ip_text e.addr_v4;
  addr_v6 = ip_text e.addr_v6;
  port = e.port;
  info = e.info;
}

-- `inprogress`, a map to pointers, and the entries that they point to.
pub record Progress : Type 0 where
  pub names : List (Text × ℕ)
  pub entries : ℕ → Entry
  pub next_entry : ℕ

unfoldable pub new_entry : Text → Entry
new_entry name = record {
  name = name;
  host = [];
  addr_v4 = none;
  addr_v6 = none;
  port = 0;
  info = [];
  has_txt = false;
  sent = false;
}

abbrev pub no_progress : Progress
no_progress = record { names = []; entries = λ _. new_entry []; next_entry = 0 }

abbrev pub found_or_made : Text → Progress → Option ℕ → ℕ × Progress
found_or_made name p (some i) = (i, p)
found_or_made name p none = (
  p.next_entry,
  record {
    names = insert_path name p.next_entry p.names;
    entries = set_at p.entries p.next_entry (new_entry name);
    next_entry = p.next_entry + 1;
  },
)

unfoldable pub ensure_name : Text → Progress → ℕ × Progress
ensure_name name p = found_or_made name p (lookup_path name p.names)

unfoldable pub alias_ : Text → Text → Progress → Progress
unfolding ensure_name
alias_ src dst p = let (i, q) = ensure_name src p in record q { names = insert_path dst i q.names }

-- A statement on the entry of a name, which `inp` then points to.
abbrev pub on_entry : Text → (Entry → Entry) → Progress → Option ℕ × Progress
on_entry name f p =
    let (i, q) = ensure_name name p in
    (some i, record q { entries = set_at q.entries i (f (q.entries i)) })

-- One round of the loop over the answers of a message.
unfoldable pub on_answer : Answer → Option ℕ × Progress → Option ℕ × Progress
unfolding alias_
on_answer (ptr h target) (inp, p) = on_entry target (λ e. e) p
on_answer (srv h priority weight port target) (inp, p) =
    on_entry h.name (λ e. record e { host = target; port = port })
      (if text_eq target h.name then p else alias_ h.name target p)
on_answer (txt h texts) (inp, p) =
    on_entry h.name (λ e. record e { info = join b'|' texts; has_txt = true }) p
on_answer (a_record h ip) (inp, p) = on_entry h.name (λ e. record e { addr_v4 = some ip }) p
on_answer (aaaa_record h ip) (inp, p) = on_entry h.name (λ e. record e { addr_v6 = some ip }) p
on_answer (other_record h) (inp, p) = (inp, p)

unfoldable pub on_answers : List Answer → Option ℕ × Progress → Option ℕ × Progress
unfolding on_answer
on_answers [] s = s
on_answers (a ∷ rest) s = on_answers rest (on_answer a s)

-- What a message leads to: an entry for the reader, or a query for the instance.
pub data Outcome : Type 0 where
  delivers : Entry → Outcome
  asks : Question → Outcome

unfoldable pub finish_message : Option ℕ × Progress → Result (Outcome × Progress)
finish_message (none, p) = crash nil_dereference
finish_message (some i, p) =
    if complete (p.entries i) && not (p.entries i).sent
    then ok (
      delivers (record (p.entries i) { sent = true }),
      record p { entries = set_at p.entries i (record (p.entries i) { sent = true }) },
    )
    else ok (asks (record { name = (p.entries i).name; qtype = ptr_type }), p)

-- One message of the query's loop. `inp` starts as nil; an entry is lost if the reader's channel is
-- full, which does not show here.
unfoldable pub on_message : List Answer → Progress → Result (Outcome × Progress)
unfolding finish_message
on_message answers p = finish_message (on_answers answers (none, p))

unfoldable pub on_messages : List (List Answer) → Progress → Result (List Outcome × Progress)
unfolding on_message
on_messages [] p = ok ([], p)
on_messages (m ∷ ms) p = on_message m p >>= λ (o, q). on_messages ms q >>= λ (os, r). ok (o ∷ os, r)

-- The question that a query begins with.
unfoldable pub first_question : Text → Text → Question
first_question service domain = record {
  name =
      trim_dot service
      ++ b'.' ∷ (trim_dot (if text_eq domain [] then codes "local" else domain) ++ b'.' ∷ []);
  qtype = ptr_type;
}

-- Close, with the sockets that it closes.
pub record Client : Type 0 where
  pub ipv4_list : Option ℕ
  pub ipv6_list : Option ℕ
  pub closed : Bool

-- newClient, of what ListenUDP returns for the two families.
unfoldable pub new_client : Option ℕ → Option ℕ → Option Client
new_client none none = none
new_client (some c) ipv6 = some (record { ipv4_list = some c; ipv6_list = ipv6; closed = false })
new_client none (some d) = some (record { ipv4_list = none; ipv6_list = some d; closed = false })

abbrev pub opened : Option ℕ → List ℕ
opened none = []
opened (some c) = c ∷ []

unfoldable pub close : Client → Client × List ℕ
close c =
    if c.closed
    then (c, [])
    else (record c { closed = true }, opened c.ipv4_list ++ opened c.ipv6_list)

-- sendQuery: the sockets that the packed query leaves by.
unfoldable pub send_query : (Question → Option Text) → Client → Question → List (ℕ × Text)
send_query pack c q = elim (pack q) [
  | none ↦ []
  | some bytes ↦ send_by (opened c.ipv4_list ++ opened c.ipv6_list) bytes
]
  where
    send_by : List ℕ → Text → List (ℕ × Text)
    send_by [] bytes = []
    send_by (s ∷ ss) bytes = (s, bytes) ∷ send_by ss bytes

-- The messages that recv passes on: packets that do not unpack are passed over.
unfoldable pub recv : (Text → Option (List Answer)) → List (Option Text) → List (List Answer)
recv unpack [] = []
recv unpack (none ∷ reads) = recv unpack reads
recv unpack (some packet ∷ reads) = elim (unpack packet) [
  | none ↦ recv unpack reads
  | some answers ↦ answers ∷ recv unpack reads
]
