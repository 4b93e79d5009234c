-- ===== src/Proxy/Membership.antt =====
-- Proxy connections that come and go (addConnection and removeConnection of proxy.go).
use discovery_self.Base.{
  List, [], ◌∷◌, ◌++◌, Text, ◌≡◌, refl, ap, sym, Bool, true, false, flat_map, if◌then◌else◌, ◌==◌,
  drop_first,
}
use discovery_self.Env.{Env, connect, disconnect}
use discovery_self.Model.{State, PeerConnection, ProxyConnection, Effect, proxy_write, proxy_read}
use discovery_self.Step.{ok, emit, for_each, skip}
use discovery_self.Step.Emits.{IsLive, emit-nil, closing, close-live}
use discovery_self.Live.{told_of_peer, tell_of_peers}
use discovery_self.Proxy.{add_connection, remove_connection, tell_of_peer}

-- The news of all our peers, for a writeable proxy.
abbrev pub news : Env → Text → ProxyConnection → List PeerConnection → List Effect
news env action p ps = if p.writeable then flat_map (told_of_peer env action p) ps else []

abbrev pub joined : Env → ProxyConnection → State → State
joined env p s = record s {
  sock = record s.sock { proxies = s.sock.proxies ++ p ∷ [] };
  running = (s.running ++ proxy_write p ∷ []) ++ proxy_read p ∷ [];
  out = s.out ++ news env connect p s.sock.peers;
}

abbrev pub left : Env → ProxyConnection → State → State
left env p s = record s {
  sock = record s.sock { proxies = drop_first (λ q. q.id == p.id) s.sock.proxies };
  out = (s.out ++ news env disconnect p s.sock.peers) ++ closing p.ws;
}

tell_lem :
    (env : Env) (action : Text) (p : ProxyConnection) (b : Bool) (ps : List PeerConnection)
    (s : State)
    → IsLive p.ws
    → (if b then for_each ps (tell_of_peer env action p) else skip) s
      ≡ ok (emit (if b then flat_map (told_of_peer env action p) ps else []) s)
tell_lem env action p true ps s h = tell_of_peers env action p ps s h
tell_lem env action p false ps s h = ap ok (sym (emit-nil s))

-- A proxy connection joins the list, its pumps start, and if it is writeable one "connect" frame for
-- each of our peers is written to it.
pub add_connection_lem :
    (env : Env) (p : ProxyConnection) (s : State)
    → IsLive p.ws
    → add_connection env p s ≡ ok (joined env p s)
unfolding add_connection
add_connection_lem env p s h = simp (tell_lem env connect p p.writeable s.sock.peers _ h) refl

pub remove_connection_lem :
    (env : Env) (p : ProxyConnection) (s : State)
    → IsLive p.ws
    → remove_connection env p s ≡ ok (left env p s)
unfolding remove_connection
remove_connection_lem env p s h =
    simp (tell_lem env disconnect p p.writeable s.sock.peers _ h) (close-live p.ws _ h)
