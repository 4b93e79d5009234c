-- ===== src/Socket/Once.antt =====
-- What one connection receives of a broadcast (localBroadcast and remoteBroadcast of socket.go).
use discovery_self.Base.{
  ℕ, List, [], ◌∷◌, ◌++◌, Option, none, some, Text, ◌≡◌, refl, ◌∙◌, All, flat_map, Bool, true,
  false, if◌then◌else◌, ◌==◌, append-nil, ◌||◌, not,
}
use discovery_self.Env.{Env, WireMessage, message}
use discovery_self.Model.{State, NamedWebSocket, PeerConnection, ProxyConnection, Message, Effect}
use discovery_self.Chan
use discovery_self.Step.{ok}
use discovery_self.Step.Emits.{sent, sent_wire, sent_text}
use discovery_self.Step.Writes.{
  writes_to, writes_to-append, IsOther, writes_to-sent_other, writes_to-sent_self,
  writes_to-flat_map, flat_map-append,
}
use discovery_self.Socket.{dispatch}
use discovery_self.Live.{AllLive, delivered, forwarded, wire}
use discovery_self.Socket.Dispatch.{delivery, dispatched, dispatch_lem}

pub delivered_other :
    (c : ℕ) (m : Message) (ps : List PeerConnection)
    → All (λ (p : PeerConnection). IsOther c p.ws) ps
    → writes_to c (flat_map (delivered m) ps) ≡ []
delivered_other c m ps h = writes_to-flat_map c (delivered m) ps (every ps h)
  where
    quiet :
        (b : Bool) (ws : Option ℕ)
        → IsOther c ws
        → writes_to c (if b then [] else sent ws m.payload) ≡ []
    quiet true ws o = refl
    quiet false ws o = writes_to-sent_other c ws m.payload o

    every :
        (qs : List PeerConnection)
        → All (λ (p : PeerConnection). IsOther c p.ws) qs
        → All (λ q. writes_to c (delivered m q) ≡ []) qs
    every [] o = tt
    every (q ∷ qs) o = (quiet (q.id == m.source) q.ws o.0, every qs o.1)

pub forwarded_other :
    (env : Env) (c : ℕ) (m : Message) (b : Bool) (ps : List ProxyConnection)
    → All (λ (p : ProxyConnection). IsOther c p.ws) ps
    → writes_to c (if b then [] else flat_map (forwarded env m) ps) ≡ []
forwarded_other env c m true ps h = refl
forwarded_other env c m false ps h = writes_to-flat_map c (forwarded env m) ps (every ps h)
  where
    quiet_wire :
        (o : Option Text) (ws : Option ℕ) → IsOther c ws → writes_to c (sent_text ws o) ≡ []
    quiet_wire none ws o = refl
    quiet_wire (some t) ws o = writes_to-sent_other c ws t o

    quiet :
        (b' : Bool) (w : WireMessage) (ws : Option ℕ)
        → IsOther c ws
        → writes_to c (if b' then [] else sent_wire env ws w) ≡ []
    quiet true w ws o = refl
    quiet false w ws o = quiet_wire (env.marshal w) ws o

    every :
        (qs : List ProxyConnection)
        → All (λ (p : ProxyConnection). IsOther c p.ws) qs
        → All (λ q. writes_to c (forwarded env m q) ≡ []) qs
    every [] o = tt
    every (q ∷ qs) o = (
      quiet (not q.writeable || q.id == m.source) (wire message m.source 0 m.payload) q.ws o.0,
      every qs o.1,
    )

pub delivery_once :
    (env : Env) (sock : NamedWebSocket) (m : Message) (p : PeerConnection) (c : ℕ)
    (before after : List PeerConnection)
    → sock.peers ≡ before ++ p ∷ after
    → p.ws ≡ some c
    → All (λ (q : PeerConnection). IsOther c q.ws) before
    → All (λ (q : PeerConnection). IsOther c q.ws) after
    → All (λ (q : ProxyConnection). IsOther c q.ws) sock.proxies
    → writes_to c (delivery env sock m) ≡ (if p.id == m.source then [] else m.payload ∷ [])
delivery_once env sock m p c before after e w hb ha hp =
    writes_to-append c (flat_map (delivered m) sock.peers) _
    ∙ rw
        (
          forwarded_other env c m m.from_proxy sock.proxies hp,
          append-nil,
          e,
          flat_map-append (delivered m) before (p ∷ after),
          writes_to-append,
          delivered_other c m before hb,
          writes_to-append,
          delivered_other c m after ha,
          append-nil,
          w,
        )
        (own (p.id == m.source))
  where
    own :
        (b : Bool)
        → writes_to c (if b then [] else sent (some c) m.payload)
          ≡ (if b then [] else m.payload ∷ [])
    own true = refl
    own false = writes_to-sent_self c m.payload

-- On a socket with no nil connection a round of the dispatcher that takes up a message writes its
-- payload exactly once to a peer whose connection is nobody else's, and not at all if that peer has
-- the id of the source.
pub dispatch_once :
    (env : Env) (s : State) (m : Message) (rest : Chan.Chan Message) (p : PeerConnection) (c : ℕ)
    (before after : List PeerConnection)
    → AllLive s.sock
    → Chan.receive s.sock.broadcast_buffer ≡ some (m, rest)
    → s.sock.peers ≡ before ++ p ∷ after
    → p.ws ≡ some c
    → All (λ (q : PeerConnection). IsOther c q.ws) before
    → All (λ (q : PeerConnection). IsOther c q.ws) after
    → All (λ (q : ProxyConnection). IsOther c q.ws) s.sock.proxies
    → (t : State) × (es : List Effect) × (dispatch env s ≡ ok t)
      × (t.out ≡ s.out ++ es)
      × (writes_to c es ≡ (if p.id == m.source then [] else m.payload ∷ []))
dispatch_once env s m rest p c before after live taken e w hb ha hp = (
  dispatched env m rest s,
  delivery env s.sock m,
  dispatch_lem env s m rest live taken,
  refl,
  delivery_once env s.sock m p c before after e w hb ha hp,
)
