-- ===== src/Discovery/Found.antt =====
-- A socket that one process registers and another finds (Register of discovery.go, zone.go, server.go
-- and client.go).
use discovery_self.Base.{
  ℕ, List, [], ◌∷◌, Option, none, some, Text, text_eq_refl, codes, ◌≡◌, refl, ap, sym, ◌∙◌, Bool,
  true, false, if◌then◌else◌, ◌==◌, ◌%◌, ◌^◌, leb, length, append-nil,
}
use discovery_self.Step.{ok}
use discovery_self.Service.{lookup_path}
use discovery_self.Mdns.{Query, Question, Answer, ptr_type}
use discovery_self.Mdns.Wire.{Wire, IsWire, all_fit, query_fits}
use discovery_self.Mdns.Zone.{
  MdnsService, Host, done, init, records, service_records, instance_records, announced,
}
use discovery_self.Mdns.Server.{Server, parse_packet, handle_query}
use discovery_self.Mdns.Replies.{handle_query-replies}
use discovery_self.Mdns.Client
use discovery_self.Mdns.Client.{Progress, Entry, on_message, on_messages, delivers, service_entry}
use discovery_self.Mdns.Advert.{records-delivered, entry_of}
use discovery_self.Discovery.{mdns_service}
use discovery_self.Discovery.Entries.{IsAdvertised}
use discovery_self.Discovery.Registered.{init-IsInit, address, named}

-- The question of Browse.
abbrev pub browsed : Question
browsed = record { name = codes "_ws._tcp.local."; qtype = ptr_type }

-- A query of that one question.
abbrev pub asked : ℕ → Bool → Query
asked id rd = record { id = id; recursion_desired = rd; questions = browsed ∷ [] }

-- What it is answered.
announced_lem :
    (m : MdnsService)
    → m.service_addr ≡ codes "_ws._tcp.local."
    → records m browsed ≡ announced m (codes "_ws._tcp.local.")
unfolding records service_records
announced_lem m at = rw at (rw (text_eq_refl (codes "_ws._tcp.local.")) refl)

few_answers : (m : MdnsService) (name : Text) → leb (length (announced m name)) 16 ≡ true
unfolding instance_records
few_answers m name = count m.ipv4_addr m.ipv6_addr
  where
    count :
        (a b : Option Text)
        → leb (length (announced (record m { ipv4_addr = a; ipv6_addr = b }) name)) 16 ≡ true
    count none none = refl
    count none (some y) = refl
    count (some x) none = refl
    count (some x) (some y) = refl

-- A message that is delivered from is the only one.
one_message :
    (answers : List Answer) (p q : Progress) (e : Entry)
    → on_message answers p ≡ ok (delivers e, q)
    → on_messages (answers ∷ []) p ≡ ok (delivers e ∷ [], q)
unfolding on_messages
one_message answers p q e run = rw run refl

received_reply :
    (unpack : Text → Option (List Answer)) (bytes : Text) (answers : List Answer)
    → unpack bytes ≡ some answers
    → Client.recv unpack (some bytes ∷ []) ≡ answers ∷ []
unfolding Client.recv
received_reply unpack bytes answers e = rw (Client.recv, e) refl

parsed :
    (k : Wire) (s : Server) (packet from : Text) (query : Query)
    → k.unpack_query packet ≡ some query
    → parse_packet k.pack k.unpack_query k.is_ipv4 s packet from
      ≡ handle_query k.pack k.unpack_query k.is_ipv4 s query from
unfolding parse_packet
parsed k s packet from query e = rw e refl

-- A socket whose name does not begin with a dot is registered with success on a host with an IPv4
-- address, on a port that is not 0 as 16 bits, and the records that announce it fit the wire format
-- (labels of 1 to 63 bytes, names of at most 254, a text of at most 255, characters that need no
-- escape). Packing and unpacking a reply of at most 16 such answers is taken to give them back. Then
-- the server of that process, which has a listener of the family of the asker's address, answers the
-- packet of a query of one question, that of Browse, by one datagram to the asker; and the client of
-- another process, which has nothing in progress under the instance's name, makes of that datagram
-- one entry, which it delivers and which advertises just this name and id.
pub registered_found :
    (k : Wire) (h : Host) (c : ℕ) (cs : Text) (uid port : ℕ) (m : MdnsService) (ip : Text)
    (s : Server) (packet from : Text) (id : ℕ) (rd : Bool) (l : ℕ) (p : Progress)
    → IsWire k
    → (c == b'.') ≡ false
    → init h (mdns_service (c ∷ cs) uid port) ≡ done m
    → m.ipv4_addr ≡ some ip
    → (m.port % 2 ^ 16 == 0) ≡ false
    → all_fit k (announced m (codes "_ws._tcp.local.")) ≡ true
    → query_fits (asked id rd) ≡ true
    → s.zone ≡ some m
    → (if k.is_ipv4 from then s.ipv4_list else s.ipv6_list) ≡ some l
    → k.unpack_query packet ≡ some (asked id rd)
    → lookup_path m.instance_addr p.names ≡ none
    → (bytes : Text) × (e : Entry) × (q : Progress) × (parse_packet k.pack k.unpack_query k.is_ipv4
          s packet from
        ≡ record { via = l; bytes = bytes; to = from } ∷ [])
      × (on_messages (Client.recv k.unpack_reply (some bytes ∷ [])) p ≡ ok (delivers e ∷ [], q))
      × IsAdvertised (service_entry e) (c ∷ cs) uid
registered_found k h c cs uid port m ip s packet from id rd l p wire dot set v4 real fit asks_ zone
      by unpacked fresh =
    let at = address h c cs uid port m set in
    let (bytes, packed, read) =
      wire.round_trip (asked id rd) (announced m (codes "_ws._tcp.local.")) asks_ fit
        (few_answers m (codes "_ws._tcp.local.")) in
    let (q, run) = records-delivered m ip p fresh v4 real in
    let found : on_message (announced m (codes "_ws._tcp.local.")) p
        ≡ ok (delivers (entry_of m), q) =
      ap (λ as_. on_message as_ p) (sym (announced_lem m at))
      ∙ ap (λ n. on_message (records m (record { name = n; qtype = ptr_type })) p) (sym at)
      ∙ run in
    (
      bytes,
      entry_of m,
      q,
      parsed k s packet from (asked id rd) unpacked
          ∙ handle_query-replies k.pack k.unpack_query k.is_ipv4 s m (asked id rd) from bytes l _ _
              zone (append-nil (records m browsed) ∙ announced_lem m at) packed by,
      ap (λ ms. on_messages ms p) (received_reply k.unpack_reply bytes _ read)
          ∙ one_message _ p q (entry_of m) found,
      record {
        full = named h c cs uid port m set dot;
        txt = (init-IsInit h c cs uid port m set).info;
      },
    )
