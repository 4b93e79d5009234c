-- ===== src/Tests/Found.antt =====
-- Registration and the query of another process, at a concrete host.
use discovery_self.Base.{
  text_elem, arith, ℕ, List, [], ◌∷◌, Option, none, some, Text, codes, ◌≡◌, ◌≢◌, refl, ◌++◌, Bool,
  true, false,
}
use discovery_self.Step.{ok, crash, nil_dereference}
use discovery_self.Mdns.{Query, Question, Answer, ptr, ptr_type, Header, other_record}
use discovery_self.Mdns.Zone.{
  MdnsService, Host, init, done, records, header, srv_records, txt_records,
}
use discovery_self.Mdns.Server.{Server, handle_query, parse_packet}
use discovery_self.Mdns.Replies.{handle_query-replies}
use discovery_self.Mdns.Client
use discovery_self.Mdns.Client.{
  Entry, Progress, no_progress, on_message, on_messages, delivers, service_entry,
}
use discovery_self.Mdns.Advert.{on_message-unknown}
use discovery_self.Tests.Codec.{env}
use discovery_self.Tests.Requests.{empty, chat_valid}
use discovery_self.Tests.Adverts.{entry, dial, listed}
use discovery_self.Discovery.{register, browse_entry, mdns_service, instance_name, short_name}
use discovery_self.Discovery.Names.{full_name}
use discovery_self.Discovery.Entries.{IsAdvertised}
use discovery_self.Discovery.Found.{registered_found}
use discovery_self.Tests.Wire.{wire, wire-IsWire}
use discovery_self.Discovery.Registered.{own_entry_ignored, dotted_name_lost}

abbrev host : Host
host = record {
  hostname = some (codes "box");
  interface_addrs = some (codes "127.0.0.1/8" ∷ codes "10.0.0.7/24" ∷ []);
  interface_addrs_again = none;
  parse_ip = λ t. some t;
}

abbrev set_up : Text → Text → MdnsService
set_up name shown = record (mdns_service name 77 2000) {
  host_name = codes "box.";
  ipv4_addr = some (codes "10.0.0.7");
  service_addr = codes "_ws._tcp.local.";
  instance_addr = full_name (instance_name shown 77);
}

set_up_lem :
    init host (mdns_service (codes "chat") 77 2000) ≡ done (set_up (codes "chat") (codes "chat"))
unfolding init discovery_self.Base.text_eq discovery_self.Mdns.Zone.full_addresses
    discovery_self.Mdns.Zone.use_addrs discovery_self.Mdns.Zone.trim_dot
    discovery_self.Mdns.Zone.use_addr discovery_self.Base.trim discovery_self.Base.contains
    discovery_self.Base.has_prefix discovery_self.Mdns.Zone.trim_suffix discovery_self.Base.itoa
set_up_lem = refl

dotted_lem :
    init host (mdns_service (codes ".chat") 77 2000) ≡ done (set_up (codes ".chat") (codes "chat"))
unfolding init discovery_self.Base.text_eq discovery_self.Mdns.Zone.full_addresses
    discovery_self.Mdns.Zone.use_addrs discovery_self.Mdns.Zone.trim_dot
    discovery_self.Mdns.Zone.use_addr discovery_self.Base.trim discovery_self.Base.contains
    discovery_self.Base.has_prefix discovery_self.Mdns.Zone.trim_suffix discovery_self.Base.itoa
dotted_lem = refl

own_entry_ignored_example : browse_entry env dial 1234 entry listed ≡ ok listed
unfolding register text_elem
own_entry_ignored_example =
    own_entry_ignored env dial 1234 host entry b'c' (codes "hat") 77 2000
      (set_up (codes "chat") (codes "chat")) empty listed listed
      (record {
        service_type = codes "chat";
        port = 2000;
        instance_name = instance_name (codes "chat") 77;
      })
      chat_valid refl (omega arith) set_up_lem refl refl (λ k h. h)

dotted_name_lost_example :
    short_name (full_name (instance_name (codes "chat") 77)) ≢ instance_name (codes ".chat") 77
dotted_name_lost_example =
    dotted_name_lost host (codes "chat") 77 2000 (set_up (codes ".chat") (codes "chat")) dotted_lem

on_message-unknown_example : on_message [] no_progress ≡ crash nil_dereference
on_message-unknown_example = on_message-unknown [] no_progress

abbrev chat : MdnsService
chat = set_up (codes "chat") (codes "chat")

abbrev server : Server
server = record { zone = some chat; ipv4_list = some 3; ipv6_list = none; shutdown = false }

-- A wire format in which every answer is one byte.
abbrev pack : Query → List Answer → Option Text
pack query answers = some (query.id ∷ 1 ∷ [])

abbrev unpack : Text → Option Query
unpack bytes = none

abbrev is_ipv4 : Text → Bool
is_ipv4 addr = true

abbrev query : Query
query = record {
  id = 9;
  recursion_desired = false;
  questions = record { name = codes "_ws._tcp.local."; qtype = ptr_type } ∷ [];
}

handle_query-replies_example :
    handle_query pack unpack is_ipv4 server query (codes "10.0.0.9:40000")
    ≡ record { via = 3; bytes = 9 ∷ 1 ∷ []; to = codes "10.0.0.9:40000" } ∷ []
unfolding records discovery_self.Mdns.Zone.service_records discovery_self.Mdns.Zone.instance_records
    discovery_self.Base.text_eq
handle_query-replies_example =
    handle_query-replies pack unpack is_ipv4 server chat query (codes "10.0.0.9:40000") (9 ∷ 1 ∷ [])
      3 (ptr (header (codes "_ws._tcp.local.")) chat.instance_addr)
      (srv_records chat chat.instance_addr ++ txt_records chat chat.instance_addr) refl refl refl
      refl

-- The advertisement goes over the wire of Tests/Wire.
registered_found_example :
    (bytes : Text) × (e : Entry) × (q : Progress) × (parse_packet wire.pack wire.unpack_query
        wire.is_ipv4 server
        (9 ∷ [])
        (codes "10.0.0.9:40000")
      ≡ record { via = 3; bytes = bytes; to = codes "10.0.0.9:40000" } ∷ [])
    × (on_messages (Client.recv wire.unpack_reply (some bytes ∷ [])) no_progress
        ≡ ok (delivers e ∷ [], q))
    × IsAdvertised (service_entry e) (codes "chat") 77
unfolding discovery_self.Service.lookup_path discovery_self.Mdns.Wire.answer_fits
    discovery_self.Mdns.Wire.domain_fits discovery_self.Mdns.Wire.text_fits
    discovery_self.Base.split discovery_self.Service.is_name_char
    discovery_self.Mdns.Zone.instance_records discovery_self.Base.itoa
registered_found_example =
    registered_found wire host b'c' (codes "hat") 77 2000 chat (codes "10.0.0.7") server (9 ∷ [])
      (codes "10.0.0.9:40000") 9 false 3 no_progress wire-IsWire refl set_up_lem refl refl refl refl
      refl refl refl refl
