-- ===== src/Live.antt =====
-- A socket none of whose connections is nil: the handlers of socket.go make a nil connection only
-- where an upgrade fails. What the sending steps write on such a socket.
use discovery_self.Base.{
  ℕ, List, [], ◌∷◌, Text, ◌≡◌, ap, All, flat_map, Bool, true, false, if◌then◌else◌, ◌==◌, ◌||◌, not,
  sym,
}
use discovery_self.Env.{Env, WireMessage, message}
use discovery_self.Model.{
  State, NamedWebSocket, PeerConnection, ControlConnection, ProxyConnection, Effect, Message,
}
use discovery_self.Step.{ok, Step, for_each, emit, skip}
use discovery_self.Step.Emits.{
  IsLive, sent, sent_wire, Writes, emit-nil, write-live, send_wire-live, for_each-emits, All-map,
}
use discovery_self.Sends.{control_send, proxy_send, peer_send}
use discovery_self.Peer
use discovery_self.Proxy
use discovery_self.Socket

pub record AllLive (sock : NamedWebSocket) : Type 0 where
  pub of_controllers : All (λ (c : ControlConnection). IsLive c.ws) sock.controllers
  pub of_peers : All (λ (p : PeerConnection). IsLive p.ws) sock.peers
  pub of_proxies : All (λ (p : ProxyConnection). IsLive p.ws) sock.proxies

abbrev pub wire : Text → ℕ → ℕ → Text → WireMessage
wire action source target payload = record {
  action = action;
  source = source;
  target = target;
  payload = payload;
}

-- What a peer that comes or goes makes a controller and a proxy hear.
abbrev pub told_controller : Env → Text → PeerConnection → ControlConnection → List Effect
told_controller env action peer c =
    if c.id == peer.id then [] else sent_wire env c.ws (wire action c.id peer.id [])

abbrev pub told_proxy : Env → Text → PeerConnection → ProxyConnection → List Effect
told_proxy env action peer p =
    if p.writeable then sent_wire env p.ws (wire action p.id peer.id []) else []

-- What a proxy hears of one of our peers.
abbrev pub told_of_peer : Env → Text → ProxyConnection → PeerConnection → List Effect
told_of_peer env action p peer = sent_wire env p.ws (wire action p.id peer.id [])

-- What a controller hears of a peer that another machine owns.
abbrev pub told_owned : Env → Text → ℕ → ControlConnection → List Effect
told_owned env action target c = sent_wire env c.ws (wire action c.id target [])

-- What a broadcast writes to a peer and to a proxy.
abbrev pub delivered : Message → PeerConnection → List Effect
delivered m p = if p.id == m.source then [] else sent p.ws m.payload

abbrev pub forwarded : Env → Message → ProxyConnection → List Effect
forwarded env m p =
    if not p.writeable || p.id == m.source
    then []
    else sent_wire env p.ws (wire message m.source 0 m.payload)

-- A test decides between a step that writes and one that does nothing.
if-Writes :
    (b : Bool) (m : Step) (es : List Effect) (s : State)
    → m s ≡ ok (emit es s)
    → (if b then skip else m) s ≡ ok (emit (if b then [] else es) s)
if-Writes true m es s h = ap ok (sym (emit-nil s))
if-Writes false m es s h = h

when-Writes :
    (b : Bool) (m : Step) (es : List Effect) (s : State)
    → m s ≡ ok (emit es s)
    → (if b then m else skip) s ≡ ok (emit (if b then es else []) s)
when-Writes true m es s h = h
when-Writes false m es s h = ap ok (sym (emit-nil s))

module _ (env : Env) where
  tell_controller-Writes :
      (action : Text) (peer : PeerConnection) (c : ControlConnection)
      → IsLive c.ws
      → Writes (Peer.tell_controller env action peer) (told_controller env action peer) c
  unfolding Peer.tell_controller control_send
  tell_controller-Writes action peer c h s =
      if-Writes (c.id == peer.id) _ _ s (send_wire-live env c.ws _ s h)

  tell_proxy-Writes :
      (action : Text) (peer : PeerConnection) (p : ProxyConnection)
      → IsLive p.ws
      → Writes (Peer.tell_proxy env action peer) (told_proxy env action peer) p
  unfolding Peer.tell_proxy proxy_send
  tell_proxy-Writes action peer p h s =
      when-Writes p.writeable _ _ s (send_wire-live env p.ws _ s h)

  pub tell_controllers :
      (action : Text) (peer : PeerConnection) (cs : List ControlConnection) (s : State)
      → All (λ (c : ControlConnection). IsLive c.ws) cs
      → for_each cs (Peer.tell_controller env action peer) s
        ≡ ok (emit (flat_map (told_controller env action peer) cs) s)
  tell_controllers action peer cs s h =
      for_each-emits _ _ cs s (All-map (tell_controller-Writes action peer) cs h)

  pub tell_proxies :
      (action : Text) (peer : PeerConnection) (ps : List ProxyConnection) (s : State)
      → All (λ (p : ProxyConnection). IsLive p.ws) ps
      → for_each ps (Peer.tell_proxy env action peer) s
        ≡ ok (emit (flat_map (told_proxy env action peer) ps) s)
  tell_proxies action peer ps s h =
      for_each-emits _ _ ps s (All-map (tell_proxy-Writes action peer) ps h)

  pub tell_of_peers :
      (action : Text) (p : ProxyConnection) (ps : List PeerConnection) (s : State)
      → IsLive p.ws
      → for_each ps (Proxy.tell_of_peer env action p) s
        ≡ ok (emit (flat_map (told_of_peer env action p) ps) s)
  unfolding Proxy.tell_of_peer proxy_send
  tell_of_peers action p ps s h = for_each-emits _ _ ps s (every ps)
    where
      every :
          (qs : List PeerConnection)
          → All (Writes (Proxy.tell_of_peer env action p) (told_of_peer env action p)) qs
      every [] = tt
      every (q ∷ qs) = ((λ s'. send_wire-live env p.ws _ s' h), every qs)

  pub tell_owned :
      (action : Text) (target : ℕ) (cs : List ControlConnection) (s : State)
      → All (λ (c : ControlConnection). IsLive c.ws) cs
      → for_each cs (Proxy.tell_controller env action target) s
        ≡ ok (emit (flat_map (told_owned env action target) cs) s)
  unfolding Proxy.tell_controller control_send
  tell_owned action target cs s h =
      for_each-emits _ _ cs s (All-map (λ c l s'. send_wire-live env c.ws _ s' l) cs h)

  local_write-Writes :
      (m : Message) (p : PeerConnection)
      → IsLive p.ws
      → Writes (Socket.local_write m) (delivered m) p
  unfolding Socket.local_write peer_send
  local_write-Writes m p h s = if-Writes (p.id == m.source) _ _ s (write-live p.ws m.payload s h)

  remote_write-Writes :
      (m : Message) (p : ProxyConnection)
      → IsLive p.ws
      → Writes (Socket.remote_write env m) (forwarded env m) p
  unfolding Socket.remote_write proxy_send
  remote_write-Writes m p h s =
      if-Writes (not p.writeable || p.id == m.source) _ _ s (send_wire-live env p.ws _ s h)

  pub local_writes :
      (m : Message) (ps : List PeerConnection) (s : State)
      → All (λ (p : PeerConnection). IsLive p.ws) ps
      → for_each ps (Socket.local_write m) s ≡ ok (emit (flat_map (delivered m) ps) s)
  local_writes m ps s h = for_each-emits _ _ ps s (All-map (local_write-Writes m) ps h)

  pub remote_writes :
      (m : Message) (ps : List ProxyConnection) (s : State)
      → All (λ (p : ProxyConnection). IsLive p.ws) ps
      → for_each ps (Socket.remote_write env m) s ≡ ok (emit (flat_map (forwarded env m) ps) s)
  remote_writes m ps s h = for_each-emits _ _ ps s (All-map (remote_write-Writes m) ps h)
