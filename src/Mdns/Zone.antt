-- ===== src/Mdns/Zone.antt =====
-- zone.go: a service, what Init makes of it, and the records that answer a question.
use discovery_self.Base.{
  ℕ, List, [], ◌∷◌, ◌++◌, Option, none, some, Text, codes, text_eq, contains, ◌&&◌, not,
  if◌then◌else◌, ◌==◌, ◌%◌, ◌^◌, trim,
}
use discovery_self.Mdns.{
  Qtype, any_type, ptr_type, srv_type, txt_type, a_type, aaaa_type, other_type, Question, Header,
  Answer, ptr, srv, txt, a_record, aaaa_record,
}

abbrev pub default_ttl : ℕ
default_ttl = 10

pub record MdnsService : Type 0 where
  pub instance_ : Text
  pub service : Text
  pub port : ℕ
  pub info : Text
  pub domain : Text
  pub host_name : Text
  pub ipv4_addr : Option Text
  pub ipv6_addr : Option Text
  pub service_addr : Text
  pub instance_addr : Text

pub data InitError : Type 0 where
  missing_instance missing_service missing_port no_addresses no_host : InitError

pub data Checked {ℓ} (A : Type ℓ) : Type ℓ where
  done : A → Checked A
  failed : InitError → Checked A

-- os.Hostname, the first and the second call of net.InterfaceAddrs, and net.ParseIP; `none` where they
-- fail.
pub record Host : Type 0 where
  pub hostname : Option Text
  pub interface_addrs : Option (List Text)
  pub interface_addrs_again : Option (List Text)
  pub parse_ip : Text → Option Text

unfoldable pub trim_dot : Text → Text
trim_dot = trim (λ c. c == b'.')

-- strings.TrimSuffix, of a suffix that is not "".
unfoldable pub trim_suffix : Text → Text → Text
trim_suffix suffix [] = []
trim_suffix suffix (c ∷ cs) = if text_eq (c ∷ cs) suffix then [] else c ∷ trim_suffix suffix cs

abbrev pub take_addr : Host → Text → Text → MdnsService → MdnsService
take_addr h suffix addr m =
    if contains addr suffix
    then record m { ipv4_addr = h.parse_ip (trim_suffix suffix addr) }
    else m

-- One round of the loop over the interface addresses: /16, and then /24.
unfoldable pub use_addr : Host → Text → MdnsService → MdnsService
use_addr h addr m =
    if not (contains addr (codes "::")) && not (contains addr (codes "127"))
    then take_addr h (codes "/24") addr (take_addr h (codes "/16") addr m)
    else m

unfoldable pub use_addrs : Host → List Text → MdnsService → MdnsService
use_addrs h [] m = m
use_addrs h (x ∷ xs) m = use_addrs h xs (use_addr h x m)

unfoldable pub full_addresses : MdnsService → MdnsService
full_addresses m =
    let service_addr = trim_dot m.service ++ b'.' ∷ (trim_dot m.domain ++ b'.' ∷ []) in
    record m {
      service_addr = service_addr;
      instance_addr = trim_dot m.instance_ ++ b'.' ∷ service_addr;
    }

-- The addresses of the second call stay in an inner scope, so after it none are used.
unfoldable pub init_addrs :
    Host → MdnsService → Option (List Text) → Option (List Text) → Checked MdnsService
init_addrs h m (some addrs) again = done (full_addresses (use_addrs h addrs m))
init_addrs h m none (some addrs) = done (full_addresses m)
init_addrs h m none none = failed no_addresses

unfoldable pub init_host : Host → MdnsService → Option Text → Checked MdnsService
unfolding init_addrs
init_host h m none = failed no_host
init_host h m (some host_name) =
    init_addrs h (record m { host_name = host_name ++ b'.' ∷ [] }) h.interface_addrs
      h.interface_addrs_again

unfoldable pub init_checked : Host → MdnsService → Checked MdnsService
unfolding init_host
init_checked h m =
    if text_eq m.instance_ []
    then failed missing_instance
    else if text_eq m.service []
    then failed missing_service
    else if m.port == 0
    then failed missing_port
    else init_host h m h.hostname

-- Init, of the service that the pointer holds before it.
unfoldable pub init : Host → MdnsService → Checked MdnsService
unfolding init_checked
init h m = init_checked h (if text_eq m.domain [] then record m { domain = codes "local" } else m)

abbrev pub header : Text → Header
header name = record { name = name; ttl = default_ttl }

abbrev pub a_records : MdnsService → Option Text → List Answer
a_records m none = []
a_records m (some ip) = a_record (header m.host_name) ip ∷ []

abbrev pub aaaa_records : MdnsService → Option Text → List Answer
aaaa_records m none = []
aaaa_records m (some ip) = aaaa_record (header m.host_name) ip ∷ []

abbrev pub srv_records : MdnsService → Text → List Answer
srv_records m name =
    srv (header name) 10 1 (m.port % 2 ^ 16) m.host_name
    ∷ (a_records m m.ipv4_addr ++ aaaa_records m m.ipv6_addr)

abbrev pub txt_records : MdnsService → Text → List Answer
txt_records m name = txt (header name) (m.info ∷ []) ∷ []

unfoldable pub instance_records : MdnsService → Text → Qtype → List Answer
instance_records m name any_type = srv_records m m.instance_addr ++ txt_records m m.instance_addr
instance_records m name a_type = a_records m m.ipv4_addr
instance_records m name aaaa_type = aaaa_records m m.ipv6_addr
instance_records m name srv_type = srv_records m name
instance_records m name txt_type = txt_records m name
instance_records m name ptr_type = []
instance_records m name (other_type t) = []

abbrev pub announced : MdnsService → Text → List Answer
announced m name = ptr (header name) m.instance_addr ∷ instance_records m m.instance_addr any_type

unfoldable pub service_records : MdnsService → Text → Qtype → List Answer
service_records m name any_type = announced m name
service_records m name ptr_type = announced m name
service_records m name srv_type = []
service_records m name txt_type = []
service_records m name a_type = []
service_records m name aaaa_type = []
service_records m name (other_type t) = []

unfoldable pub records : MdnsService → Question → List Answer
records m q =
    if text_eq q.name m.service_addr
    then service_records m q.name q.qtype
    else if text_eq q.name m.instance_addr
    then instance_records m q.name q.qtype
    else []
