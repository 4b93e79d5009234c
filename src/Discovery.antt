-- ===== src/Discovery.antt =====
-- discovery.go: how a process advertises its network sockets, and what it does with the
-- advertisements of others that the mDNS query returns. The mDNS library, the WebSocket dialer and the
-- random numbers are arguments.
pub mod Names
pub mod Info
pub mod Entries
pub mod Once
pub mod CopyMark
pub mod Matching
pub mod Server
pub mod Registered
pub mod Found
use discovery_self.Base.{
  ℕ, suc, ◌+◌, List, [], ◌∷◌, ◌++◌, Option, none, some, Text, codes, text_eq, text_elem, Bool, true,
  false, ◌&&◌, ◌||◌, not, if◌then◌else◌, ◌==◌, leb, length, split, join, itoa, to_lower, is_digit,
  reverse, take_until, trim_right,
}
use discovery_self.Env.{Env}
use discovery_self.Model.{NamedWebSocket, DiscoveryClient, State, Effect}
use discovery_self.Step.{Result, ok, crash, index_out_of_range, log_fatal, Step, ◌>>=◌}
use discovery_self.Mdns.Zone.{MdnsService}
use discovery_self.Proxy
use discovery_self.Service.{World, Service, on_socket, resolve, is_name_char, set_at}

-- What the program reads of an mdns.ServiceEntry; the addresses are in text form.
pub record ServiceEntry : Type 0 where
  pub name : Text
  pub host : Text
  pub addr_v4 : Text
  pub addr_v6 : Text
  pub port : ℕ
  pub info : Text

-- The parts before the last part that is `t`.
unfoldable pub before_last : Text → List Text → Option (List Text)
before_last t [] = none
before_last t (c ∷ cs) = elim (before_last t cs) [
  | some pre ↦ some (c ∷ pre)
  | none ↦ if text_eq c t then some [] else none
]

name_before : Option (List Text) → Text
name_before none = []
name_before (some pre) = join b'.' pre

-- The name of an entry before its last "_ws" part, and "" where it has none.
unfoldable pub short_name : Text → Text
unfolding name_before
short_name name = name_before (before_last (codes "_ws") (split b'.' name))

-- [0-9]+ and the byte `close`: the text after them.
unfoldable pub digits_then : ℕ → Bool → Text → Option Text
digits_then close some_digit [] = none
digits_then close some_digit (c ∷ cs) =
    let rest = digits_then close true cs in
    if is_digit c then rest else if c == close && some_digit then some cs else none

-- ( \([0-9]+\))?$
unfoldable pub is_copy_mark : Text → Bool
is_copy_mark [] = true
is_copy_mark (a ∷ []) = false
is_copy_mark (a ∷ b ∷ rest) =
    a == b' '
    && b == b'('
    && elim (digits_then b')' false rest) [ none ↦ false | some after ↦ text_eq after [] ]

after_uid : Option Text → Bool
after_uid none = false
after_uid (some rest) = is_copy_mark rest

-- A name of `n` bytes so far, and the rest: \[[0-9]+\]( \([0-9]+\))?$ behind [A-Za-z0-9\._-]{1,255}
unfoldable pub matches_from : ℕ → Text → Bool
unfolding after_uid
matches_from n [] = false
matches_from n (c ∷ cs) =
    let rest = matches_from (suc n) cs in
    if is_name_char c
    then rest
    else c == b'[' && leb 1 n && leb n 255 && after_uid (digits_then b']' false cs)

-- NetworkServiceMatcher
unfoldable pub is_network_service : Text → Bool
is_network_service = matches_from 0

abbrev pub is_separator : ℕ → Bool
is_separator c = c == b'=' || c == b',' || c == b';' || c == b' '

add_field : Text → List Text → List Text
add_field [] fs = fs
add_field (c ∷ cs) fs = (c ∷ cs) ∷ fs

-- The field that is open, and the fields behind it.
fields_from : Text → Text × List Text
fields_from [] = ([], [])
fields_from (c ∷ cs) =
    let (open_field, fs) = fields_from cs in
    if is_separator c then ([], add_field open_field fs) else (c ∷ open_field, fs)

-- strings.FieldsFunc
unfoldable pub fields : Text → List Text
unfolding fields_from add_field
fields s = let (open_field, fs) = fields_from s in add_field open_field fs

-- The value behind the first "path" at an even place; a "path" at the end is an index out of range.
unfoldable pub path_in : List Text → Result Text
path_in [] = ok (codes "/")
path_in (k ∷ []) =
    if text_eq (to_lower k) (codes "path") then crash index_out_of_range else ok (codes "/")
path_in (k ∷ v ∷ rest) = if text_eq (to_lower k) (codes "path") then ok v else path_in rest

-- The fields are only read if there are two at least.
unfoldable pub path_of_fields : List Text → Result Text
path_of_fields [] = ok (codes "/")
path_of_fields (k ∷ []) = ok (codes "/")
path_of_fields (k ∷ v ∷ rest) = path_in (k ∷ v ∷ rest)

unfoldable pub path_of_info : Text → Result Text
path_of_info info = path_of_fields (fields info)

last_part : List Text → Text
last_part [] = []
last_part (p ∷ []) = p
last_part (p ∷ q ∷ ps) = last_part (q ∷ ps)

base_of : Text → Text
unfolding last_part
base_of [] = codes "/"
base_of (c ∷ cs) = last_part (split b'/' (c ∷ cs))

-- path.Base
unfoldable pub path_base : Text → Text
unfolding base_of
path_base [] = codes "."
path_base (c ∷ cs) = base_of (trim_right (λ x. x == b'/') (c ∷ cs))

-- strings.TrimSuffix(s, ".")
unfoldable pub trim_dot_suffix : Text → Text
trim_dot_suffix [] = []
trim_dot_suffix (c ∷ []) = if c == b'.' then [] else c ∷ []
trim_dot_suffix (c ∷ d ∷ ds) = c ∷ trim_dot_suffix (d ∷ ds)

-- A map[string]bool, to which only `true` is written.
abbrev pub add_name : Text → List Text → List Text
add_name k ks = if text_elem k ks then ks else ks ++ k ∷ []

-- websocket.DefaultDialer.Dial, of a host with its port and a path.
abbrev pub Dialer : Type 0
Dialer = Text → Text → Option ℕ

abbrev pub host_port : Text → ℕ → Text
host_port host port = trim_dot_suffix host ++ b':' ∷ itoa port

abbrev pub instance_name : Text → ℕ → Text
instance_name service_type uid = service_type ++ b'[' ∷ itoa uid ++ b']' ∷ []

abbrev pub service_info : Text → Text
service_info service_type = codes "path=/network/" ++ service_type

-- Register: `published` says whether the mDNS service and server could be set up.
unfoldable pub register : Bool → ℕ → Text → ℕ → World → Result (DiscoveryClient × World)
register published uid service_type port w =
    if published
    then ok (
      record {
        service_type = service_type;
        port = port;
        instance_name = instance_name service_type uid;
      },
      record w {
        service = record w.service {
          advertised_service_names =
              add_name (instance_name service_type uid) w.service.advertised_service_names;
        };
      },
    )
    else crash log_fatal

set_client : ℕ → DiscoveryClient × World → Result World
set_client i (client, w) =
    ok (record w { heap = set_at w.heap i (record (w.heap i) { discovery_client = some client }) })

advertise_as : Bool → ℕ → ℕ → ℕ → Option DiscoveryClient → World → Result World
unfolding set_client
advertise_as published uid i port none w =
    register published uid (w.heap i).service_name port w >>= λ r. set_client i r
advertise_as published uid i port (some client) w = ok w

-- `advertise` of socket.go.
unfoldable pub advertise : Bool → ℕ → ℕ → ℕ → World → Result World
unfolding advertise_as
advertise published uid i port w = advertise_as published uid i port (w.heap i).discovery_client w

unfoldable pub mark_registered : Text → World → World
mark_registered short w = record w {
  service = record w.service {
    registered_service_names = add_name short w.service.registered_service_names;
  };
}

-- What one arrival on the query's channel brings with it.
pub record Arrival : Type 0 where
  pub dial : Dialer
  pub id : ℕ
  pub found : ServiceEntry

module _ (env : Env) where
  unfoldable pub join_dialed : ℕ → ℕ → Step
  unfolding Proxy.new_proxy_connection
  join_dialed id ws s =
      let (proxy, s') = Proxy.new_proxy_connection id (some ws) false s in
      Proxy.add_connection env proxy s'

  dialed : Text → ℕ → ℕ → World → Option ℕ → Result World → Result World
  unfolding mark_registered
  dialed short id i w none otherwise = otherwise
  dialed short id i w (some ws) otherwise =
      on_socket i (join_dialed id ws) w >>= λ w'. ok (mark_registered short w')

  -- The hosts are dialled in turn, up to the first that answers.
  unfoldable pub try_hosts : Dialer → Text → Text → ℕ → ℕ → ℕ → List Text → World → Result World
  unfolding dialed
  try_hosts dial short path port id i [] w = ok w
  try_hosts dial short path port id i (h ∷ hs) w =
      let rest = try_hosts dial short path port id i hs w in
      dialed short id i w (dial (host_port h port) (path ++ b'/' ∷ itoa id)) rest

  unfoldable pub connect_entry : Dialer → ℕ → ServiceEntry → Text → World → Result World
  connect_entry dial id e path w =
      let (i, w') = resolve path (path_base path) true w in
      try_hosts dial (short_name e.name) path e.port id i (e.host ∷ e.addr_v4 ∷ e.addr_v6 ∷ []) w'

  -- One entry of the query's channel, with the random id of the connection.
  unfoldable pub browse_entry : Dialer → ℕ → ServiceEntry → World → Result World
  browse_entry dial id e w =
      if not (is_network_service (short_name e.name))
      then ok w
      else if text_elem (short_name e.name) w.service.advertised_service_names
      then ok w
      else if text_elem (short_name e.name) w.service.registered_service_names
      then ok w
      else path_of_info e.info >>= λ path. connect_entry dial id e path w

  -- The entries that arrive until the query's time is over.
  unfoldable pub browse : List Arrival → World → Result World
  browse [] w = ok w
  browse (a ∷ rest) w = browse_entry a.dial a.id a.found w >>= browse rest

-- The service that Register hands to the mDNS library.
abbrev pub mdns_service : Text → ℕ → ℕ → MdnsService
mdns_service service_type uid port = record {
  instance_ = instance_name service_type uid;
  service = codes "_ws._tcp";
  port = port;
  info = service_info service_type;
  domain = codes "local";
  host_name = [];
  ipv4_addr = none;
  ipv6_addr = none;
  service_addr = [];
  instance_addr = [];
}
