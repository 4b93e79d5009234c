-- ===== src/Mdns/Advert.antt =====
-- The records of a service, and the entry that a client makes of them (zone.go and client.go).
use discovery_self.Base.{
  ℕ, List, [], ◌∷◌, Option, none, some, Text, text_eq, text_eq_refl, text_eq_iff, ◌≡◌, refl, ◌∙◌,
  true, false, if◌then◌else◌, ◌==◌, ◌%◌, ◌^◌, join, ==_refl, map, Bool-cases, inl, inr,
}
use discovery_self.Step.{ok, crash, nil_dereference}
use discovery_self.Service.{set_at, lookup_path}
use discovery_self.Service.Found.{lookup-insert_path}
use discovery_self.Mdns.{Header, ptr, srv, txt, a_record, aaaa_record, ptr_type, other_record}
use discovery_self.Mdns.Zone.{
  MdnsService, records, service_records, instance_records, header, announced,
}
use discovery_self.Mdns.Client.{
  Entry, Progress, on_answer, on_answers, on_message, finish_message, ensure_name, alias_,
  new_entry, complete, delivers, on_entry,
}

-- The entry that a service is read back as.
abbrev pub entry_of : MdnsService → Entry
entry_of m = record {
  name = m.instance_addr;
  host = m.host_name;
  addr_v4 = m.ipv4_addr;
  addr_v6 = m.ipv6_addr;
  port = m.port % 2 ^ 16;
  info = m.info;
  has_txt = true;
  sent = true;
}

-- The entry that both names lead to, and that is being filled in.
record Known (name host : Text) (i : ℕ) (e : Entry) (s : Option ℕ × Progress) : Type 0 where
  points : s.0 ≡ some i
  by_name : lookup_path name s.1.names ≡ some i
  by_host : lookup_path host s.1.names ≡ some i
  holds : s.1.entries i ≡ e

on_known :
    (n : Text) (f : Entry → Entry) (p : Progress) {i : ℕ} {e : Entry}
    → lookup_path n p.names ≡ some i
    → p.entries i ≡ e
    → on_entry n f p ≡ (some i, record p { entries = set_at p.entries i (f e) })
unfolding ensure_name
on_known n f p l h = rw (l, h) refl

Known-on_entry :
    (n name host : Text) (f : Entry → Entry) (s : Option ℕ × Progress) {i : ℕ} {e : Entry}
    → lookup_path n s.1.names ≡ some i
    → Known name host i e s
    → Known name host i (f e) (on_entry n f s.1)
Known-on_entry n name host f s {i} l k = rw (on_known n f s.1 l k.holds) (record {
  points = refl;
  by_name = k.by_name;
  by_host = k.by_host;
  holds = rw (==_refl i) refl;
})

-- The first answer makes the entry of an instance that is not in progress.
ptr_lem :
    (h : Header) (name : Text) (p : Progress)
    → lookup_path name p.names ≡ none
    → Known name name p.next_entry (new_entry name) (on_answer (ptr h name) (none, p))
unfolding on_answer ensure_name
ptr_lem h name p fresh = rw fresh (record {
  points = refl;
  by_name = lookup-insert_path name name p.next_entry p.names ∙ rw (text_eq_refl name) refl;
  by_host = lookup-insert_path name name p.next_entry p.names ∙ rw (text_eq_refl name) refl;
  holds = rw (==_refl p.next_entry) refl;
})

-- The second makes the host's name lead to it.
alias_lem :
    (name host : Text) (inp : Option ℕ) (p : Progress) {i : ℕ} {e : Entry}
    → Known name name i e (inp, p)
    → Known name host i e (inp, (if text_eq host name then p else alias_ name host p))
unfolding alias_ ensure_name
alias_lem name host inp p {i} k = elim (Bool-cases (text_eq host name)) [
  | inl same ↦ rw same (record {
    points = k.points;
    by_name = k.by_name;
    by_host = rw ((text_eq_iff host name).0 same) k.by_name;
    holds = k.holds;
  })
  | inr other ↦
      rw (other, k.by_name)
        (record {
          points = k.points;
          by_name = lookup-insert_path host name i p.names ∙ rw other k.by_name;
          by_host = lookup-insert_path host host i p.names ∙ rw (text_eq_refl host) refl;
          holds = k.holds;
        })
]

srv_lem :
    (name host : Text) (priority weight port : ℕ) (s : Option ℕ × Progress) {i : ℕ} {e : Entry}
    → Known name name i e s
    → Known name host i
        (record e { host = host; port = port })
        (on_answer (srv (header name) priority weight port host) s)
unfolding on_answer
srv_lem name host priority weight port s k =
    Known-on_entry name name host (λ e. record e { host = host; port = port })
      (s.0, (if text_eq host name then s.1 else alias_ name host s.1))
      (alias_lem name host s.0 s.1 k).by_name (alias_lem name host s.0 s.1 k)

a_lem :
    (name host ip : Text) (s : Option ℕ × Progress) {i : ℕ} {e : Entry}
    → Known name host i e s
    → Known name host i (record e { addr_v4 = some ip }) (on_answer (a_record (header host) ip) s)
unfolding on_answer
a_lem name host ip s k =
    Known-on_entry host name host (λ e. record e { addr_v4 = some ip }) s k.by_host k

aaaa_lem :
    (name host ip : Text) (s : Option ℕ × Progress) {i : ℕ} {e : Entry}
    → Known name host i e s
    → Known name host i
        (record e { addr_v6 = some ip })
        (on_answer (aaaa_record (header host) ip) s)
unfolding on_answer
aaaa_lem name host ip s k =
    Known-on_entry host name host (λ e. record e { addr_v6 = some ip }) s k.by_host k

txt_lem :
    (name host info : Text) (s : Option ℕ × Progress) {i : ℕ} {e : Entry}
    → Known name host i e s
    → Known name host i
        (record e { info = info; has_txt = true })
        (on_answer (txt (header name) (info ∷ [])) s)
unfolding on_answer join
txt_lem name host info s k =
    Known-on_entry name name host (λ e. record e { info = info; has_txt = true }) s k.by_name k

-- The answers about the instance, of an IPv4 address and of an IPv6 one if the service has it.
answers_lem :
    (m : MdnsService) (ip : Text) (v6 : Option Text) (p : Progress)
    → lookup_path m.instance_addr p.names ≡ none
    → m.ipv4_addr ≡ some ip
    → m.ipv6_addr ≡ v6
    → Known m.instance_addr m.host_name p.next_entry
        (record (entry_of m) { sent = false })
        (on_answers (announced m m.service_addr) (none, p))
unfolding on_answers instance_records new_entry
answers_lem m ip none p fresh v4 six =
    rw (v4, six)
      (txt_lem m.instance_addr m.host_name m.info _ (
        a_lem m.instance_addr m.host_name ip _ (
          srv_lem m.instance_addr m.host_name 10 1 (m.port % 2 ^ 16) _
            (ptr_lem (header m.service_addr) m.instance_addr p fresh))))
answers_lem m ip (some v) p fresh v4 six =
    rw (v4, six)
      (txt_lem m.instance_addr m.host_name m.info _ (
        aaaa_lem m.instance_addr m.host_name v _ (
          a_lem m.instance_addr m.host_name ip _ (
            srv_lem m.instance_addr m.host_name 10 1 (m.port % 2 ^ 16) _
              (ptr_lem (header m.service_addr) m.instance_addr p fresh)))))

finish_lem :
    (name host : Text) (i : ℕ) (e : Entry) (s : Option ℕ × Progress)
    → Known name host i e s
    → complete e ≡ true
    → e.sent ≡ false
    → (q : Progress) × (finish_message s ≡ ok (delivers (record e { sent = true }), q))
unfolding finish_message
finish_lem name host i e (o, p) k full fresh = rw k.points (rw (k.holds, full, fresh) (_, refl))

-- The records that answer a query for a kind of service, of a service with an IPv4 address and a port
-- that is not 0 as 16 bits: a client that reads just these records, and has nothing in progress under
-- the instance's name, delivers at once the entry of the service's own name, host, addresses, port
-- and text.
pub records-delivered :
    (m : MdnsService) (ip : Text) (p : Progress)
    → lookup_path m.instance_addr p.names ≡ none
    → m.ipv4_addr ≡ some ip
    → (m.port % 2 ^ 16 == 0) ≡ false
    → (q : Progress) × (on_message
          (records m (record { name = m.service_addr; qtype = ptr_type }))
          p
        ≡ ok (delivers (entry_of m), q))
unfolding on_message records service_records complete
records-delivered m ip p fresh v4 port = rw (text_eq_refl m.service_addr) (
    finish_lem m.instance_addr m.host_name p.next_entry (record (entry_of m) { sent = false }) _
      (answers_lem m ip m.ipv6_addr p fresh v4 refl) (rw (v4, port) refl) refl)

-- A message without an answer that the client knows, be it empty, ends the process that queries.
pub on_message-unknown :
    (hs : List Header) (p : Progress) → on_message (map other_record hs) p ≡ crash nil_dereference
unfolding on_message finish_message on_answers on_answer
on_message-unknown [] p = refl
on_message-unknown (h ∷ hs) p = on_message-unknown hs p
