-- ===== src/Tests.antt =====
-- Runs of the theorems on concrete connections, and the data that these runs share.
mod Codec
mod Linked
mod Routes
mod Query
mod Wire
mod Process
mod Flight
mod Matching
mod Links
mod Pumps
mod Requests
mod Adverts
mod Found
use discovery_self.Base.{
  ℕ, List, [], ◌∷◌, ◌++◌, Option, none, some, Text, codes, true, false, if◌then◌else◌, ◌==◌,
}
use discovery_self.Model.{
  State, NamedWebSocket, PeerConnection, ControlConnection, ProxyConnection, Message,
}

-- A socket with a queue of messages, whose proxies own the ids `ks`.
abbrev pub state_of :
    List ControlConnection
    → List PeerConnection
    → List ProxyConnection
    → List Message
    → List ℕ
    → State
state_of cs ps qs ms ks = record {
  sock = record {
    service_name = codes "chat";
    controllers = cs;
    peers = ps;
    proxies = qs;
    broadcast_buffer = record { capacity = 512; buffer = ms; parked = [] };
    discovery_client = none;
  };
  maps = λ r. if r == 0 then ks else [];
  next_map = 1;
  peer_notified_list = [];
  proxy_notified_list = [];
  running = [];
  out = [];
}

abbrev pub peer : ℕ → ℕ → PeerConnection
peer id c = record { id = id; ws = some c }

abbrev pub controller : ℕ → ℕ → ControlConnection
controller id c = record { peer_connection = peer id c }

abbrev pub proxy : ℕ → ℕ → ProxyConnection
proxy id c = record { peer_connection = peer id c; peers = 0; writeable = true }

abbrev pub hello : Text
hello = codes "hello"

abbrev pub url : Text
url = codes "see http://example.org"

abbrev pub greeting : Message
greeting = record { source = 7; target = 0; payload = hello; from_proxy = false }
