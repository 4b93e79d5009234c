-- ===== src/Network/Broadcast.antt =====
-- A broadcast from one machine to another (remoteBroadcast of socket.go, the read loop of proxy.go).
use discovery_self.Base.{
  ℕ, List, [], ◌∷◌, ◌++◌, some, Text, ◌≡◌, ◌≢◌, refl, ap, ◌∙◌, true, false, All, flat_map, ◌==◌,
  ==_iff, Bool-cases, inl, inr, append-nil, text_eq,
}
use discovery_self.Chan
use discovery_self.Env.{Env, IsEnv, message}
use discovery_self.Model.{State, NamedWebSocket, PeerConnection, ProxyConnection, Message, Effect}
use discovery_self.Step.{ok}
use discovery_self.Live.{AllLive, wire, delivered, forwarded}
use discovery_self.Socket.{dispatch, remote_broadcast}
use discovery_self.Socket.Dispatch.{delivery, dispatched, dispatch_lem}
use discovery_self.Step.Writes.{
  writes_to, writes_to-append, IsOther, writes_to-sent_self, flat_map-append,
}
use discovery_self.Socket.Once.{delivered_other, forwarded_other}
use discovery_self.Network.Link.{IsLink}
use discovery_self.Proxy
use discovery_self.Proxy.{handle_wire, handle_message}
use discovery_self.Proxy.Notify.{proxy_notify_returns}

-- The message that the other machine queues for its own peers.
abbrev pub relayed : Message → Message
relayed m = record m { target = 0; from_proxy = true }

frame_forwarded :
    (env : Env) (m : Message) (near : ProxyConnection) (c : ℕ) (frame : Text)
    → near.ws ≡ some c
    → near.writeable ≡ true
    → near.id ≢ m.source
    → env.marshal (wire message m.source 0 m.payload) ≡ some frame
    → writes_to c (forwarded env m near) ≡ frame ∷ []
frame_forwarded env m near c frame w on apart enc = elim (Bool-cases (near.id == m.source)) [
  | inl same ↦ absurd (apart ((==_iff near.id m.source).0 same))
  | inr other ↦ rw (on, other, w, enc) (writes_to-sent_self c frame)
]

link_forwarded :
    (env : Env) (m : Message) (near : ProxyConnection) (c : ℕ) (frame : Text)
    (before after : List ProxyConnection)
    → All (λ (p : ProxyConnection). IsOther c p.ws) before
    → All (λ (p : ProxyConnection). IsOther c p.ws) after
    → writes_to c (forwarded env m near) ≡ frame ∷ []
    → writes_to c (flat_map (forwarded env m) (before ++ near ∷ after)) ≡ frame ∷ []
link_forwarded env m near c frame before after hb ha own =
    rw
      (
        flat_map-append (forwarded env m) before (near ∷ after),
        writes_to-append c (flat_map (forwarded env m) before) _,
        forwarded_other env c m false before hb,
        writes_to-append c (forwarded env m near) _,
        forwarded_other env c m false after ha,
        append-nil,
      )
      own

-- What `broadcast_crosses_once` says, and what the frame is.
pub frame_crosses_once :
    (env : Env) (spec : IsEnv env) (s u : State) (m : Message) (rest : Chan.Chan Message)
    (near far : ProxyConnection) (c : ℕ) (path : Text)
    → AllLive s.sock
    → Chan.receive s.sock.broadcast_buffer ≡ some (m, rest)
    → IsLink s near c
    → All (λ (p : PeerConnection). IsOther c p.ws) s.sock.peers
    → near.id ≢ m.source
    → m.from_proxy ≡ false
    → env.valid_utf8 m.payload ≡ true
    → env.icon_path ≡ some path
    → (frame : Text) × (es : List Effect) × (t : State) × (v : State) × (dispatch env s ≡ ok t)
      × (t.out ≡ s.out ++ es)
      × (writes_to c es ≡ frame ∷ [])
      × (Proxy.handle env far frame u ≡ ok v)
      × (v.sock
          ≡ record u.sock { broadcast_buffer = Chan.send u.sock.broadcast_buffer (relayed m) })
      × (remote_broadcast env (relayed m) v ≡ ok v)
      × (env.marshal (wire message m.source 0 m.payload) ≡ some frame)
unfolding Proxy.handle handle_wire handle_message remote_broadcast text_eq
frame_crosses_once env spec s u m rest near far c path live taken link quiet apart own utf icon =
    let (frame, enc, dec) = spec.json (wire message m.source 0 m.payload) spec.ascii.3 utf in
    let (t, told, same) = proxy_notify_returns env m.payload path u icon in
    (
      frame,
      delivery env s.sock m,
      dispatched env m rest s,
      record t {
        sock = record t.sock { broadcast_buffer = Chan.send t.sock.broadcast_buffer (relayed m) };
      },
      dispatch_lem env s m rest live taken,
      refl,
      writes_to-append c (flat_map (delivered m) s.sock.peers) _
          ∙ rw (delivered_other c m s.sock.peers quiet) (
              simp own (
                rw link.listed (
                  link_forwarded env m near c frame link.before link.after link.alone_before
                    link.alone_after
                    (frame_forwarded env m near c frame link.over link.writes apart enc)))),
      rw dec (rw told refl),
      ap {A = NamedWebSocket} {B = NamedWebSocket}
          (λ k. record k { broadcast_buffer = Chan.send k.broadcast_buffer (relayed m) }) same,
      refl,
      enc,
    )

-- On a socket with no nil connection and with one link to another machine, whose connection no peer
-- and no other proxy or controller has and whose id is not the source's, a message that no proxy
-- sent, of valid UTF-8, goes over the link as one frame in the round of the dispatcher that takes
-- it up. The machine that reads it, if it knows the path of its icon, queues the payload with the
-- same source, marked as coming from a proxy, and such a message is sent to no proxy again.
pub broadcast_crosses_once :
    (env : Env) (spec : IsEnv env) (s u : State) (m : Message) (rest : Chan.Chan Message)
    (near far : ProxyConnection) (c : ℕ) (path : Text)
    → AllLive s.sock
    → Chan.receive s.sock.broadcast_buffer ≡ some (m, rest)
    → IsLink s near c
    → All (λ (p : PeerConnection). IsOther c p.ws) s.sock.peers
    → near.id ≢ m.source
    → m.from_proxy ≡ false
    → env.valid_utf8 m.payload ≡ true
    → env.icon_path ≡ some path
    → (frame : Text) × (es : List Effect) × (t : State) × (v : State) × (dispatch env s ≡ ok t)
      × (t.out ≡ s.out ++ es)
      × (writes_to c es ≡ frame ∷ [])
      × (Proxy.handle env far frame u ≡ ok v)
      × (v.sock
          ≡ record u.sock { broadcast_buffer = Chan.send u.sock.broadcast_buffer (relayed m) })
      × (remote_broadcast env (relayed m) v ≡ ok v)
broadcast_crosses_once env spec s u m rest near far c path live taken link quiet apart own utf
      icon =
    let (frame, es, t, v, ran, out, crossed, read, queued_, silent, enc) =
      frame_crosses_once env spec s u m rest near far c path live taken link quiet apart own utf
        icon in
    (frame, es, t, v, ran, out, crossed, read, queued_, silent)
