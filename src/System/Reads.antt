-- ===== src/System/Reads.antt =====
-- What the pumps read and the dispatcher sends, against the invariant (peer.go, control.go, proxy.go,
-- socket.go).
use discovery_self.Base.{
  ℕ, List, Option, none, some, Text, text_eq, ◌≡◌, refl, sym, ◌∙◌, Bool, true, false,
  All-find_first, inl, inr, subst, Bool-cases, Option-cases,
}
use discovery_self.Chan
use discovery_self.Chan.Fifo.{receive-IsChan, capacity-receive}
use discovery_self.Env.{Env, WireMessage, connect, disconnect, message, directmessage}
use discovery_self.Model.{State, PeerConnection, ControlConnection, ProxyConnection, Effect}
use discovery_self.Step.{Result, ok, crash, log_fatal, ◌>>=◌, emit}
use discovery_self.Step.Inversion.{ok_eq, then_inv}
use discovery_self.Step.Emits.{send_wire-live}
use discovery_self.Live.{tell_owned}
use discovery_self.Sends.{control_send}
use discovery_self.Peer
use discovery_self.Control
use discovery_self.Control.Relay.{handle-message, handle-malformed}
use discovery_self.Proxy
use discovery_self.Proxy.{handle_wire, handle_message, relay}
use discovery_self.Proxy.Notify.{peer_notify_inv, proxy_notify_inv}
use discovery_self.Socket
use discovery_self.Socket.Dispatch.{dispatch_lem}
use discovery_self.System.Comings.{returned}
use discovery_self.System.Invariant.{
  IsSound, SameCore-IsSound, Remembers-IsSound, broadcast-IsSound,
}

module _ (env : Env) where
  emitted : (es : List Effect) (s : State) → IsSound s → IsSound (emit es s)
  emitted es s v =
      SameCore-IsSound {s = s} {t = emit es s}
        (record { sock = refl; peer_notified = refl; proxy_notified = refl; running = refl }) v

  pub peer_reads-IsSound :
      (p : PeerConnection) (text : Text) (s t : State)
      → Peer.handle env p text s ≡ ok t
      → IsSound s
      → IsSound t
  unfolding Peer.handle
  peer_reads-IsSound p text s t e v =
      let (u, told, rest) = then_inv (Peer.notify env p text s) _ e in
      subst IsSound (ok_eq rest) (
        broadcast-IsSound _ u (
          Remembers-IsSound text s u s.peer_notified_list refl (peer_notify_inv env p text s u told)
            v))

  wire_reads-IsSound :
      (c : ControlConnection) (m : WireMessage) (s t : State)
      → (b : Bool) → text_eq m.action message ≡ b
      → Control.handle_wire env c (some m) s ≡ ok t
      → IsSound s
      → IsSound t
  unfolding Control.handle_wire
  wire_reads-IsSound c m s t true b e v =
      returned IsSound (rw b at e)
        (Control.Relay.route_lem env c m s (Control.Relay.controller_of m.target s) v.live refl)
        (emitted _ s v)
  wire_reads-IsSound c m s t false b e v = subst IsSound (ok_eq (rw b at e)) v

  pub control_reads-IsSound :
      (c : ControlConnection) (text : Text) (s t : State)
      → Control.handle env c text s ≡ ok t
      → IsSound s
      → IsSound t
  unfolding Control.handle
  control_reads-IsSound c text s t e v = elim (Option-cases (env.unmarshal text)) [
    | inl bad ↦ absurd (clash (rw bad at e))
    | inr (m, good) ↦ wire_reads-IsSound c m s t (text_eq m.action message) refl (rw good at e) v
  ]
    where
      clash : crash log_fatal ≡ ok t → ⊥
      clash h = cc

  owned_reads :
      (action : Text) (k r : ℕ) (f : List ℕ → List ℕ) (s t : State)
      → discovery_self.Step.for_each s.sock.controllers
          (Proxy.tell_controller env action k)
          (record s { maps = Proxy.update s.maps r (f (s.maps r)) })
        ≡ ok t
      → IsSound s
      → IsSound t
  owned_reads action k r f s t e v =
      returned IsSound e (tell_owned env action k s.sock.controllers _ v.live.of_controllers) (
        SameCore-IsSound {s = s}
          (record { sock = refl; peer_notified = refl; proxy_notified = refl; running = refl }) v)

  relay-IsSound : (m : WireMessage) (s t : State) → relay env m s ≡ ok t → IsSound s → IsSound t
  unfolding relay control_send
  relay-IsSound m s t e v = elim (Option-cases (Control.Relay.controller_of m.target s)) [
    | inl absent ↦ subst IsSound (ok_eq (rw absent at e)) v
    | inr (c, found) ↦
        returned IsSound (rw found at e)
          (send_wire-live env c.ws _ s
            (All-find_first _ _ s.sock.controllers v.live.of_controllers found))
          (emitted _ s v)
  ]

  pub proxy_message-IsSound :
      (p : ProxyConnection) (m : WireMessage) (s t : State)
      → handle_message env p m s ≡ ok t
      → IsSound s
      → IsSound t
  unfolding handle_message
  proxy_message-IsSound p m s t e v = elim (Bool-cases (text_eq m.action connect)) [
    | inl a ↦ owned_reads connect m.target p.peers (Proxy.insert_key m.target) s t (rw a at e) v
    | inr a ↦ elim (Bool-cases (text_eq m.action disconnect)) [
      | inl b ↦
          owned_reads disconnect m.target p.peers (Proxy.delete_key m.target) s t (rw (a, b) at e) v
      | inr b ↦ elim (Bool-cases (text_eq m.action message)) [
        | inl c ↦
            let (u, told, rest) = then_inv (Proxy.notify env m.payload s) _ (rw (a, b, c) at e) in
            subst IsSound (ok_eq rest) (
              broadcast-IsSound _ u (
                Remembers-IsSound m.payload s u s.proxy_notified_list (sym v.same_lists)
                  (proxy_notify_inv env m.payload s u told) v))
        | inr c ↦ elim (Bool-cases (text_eq m.action directmessage)) [
          | inl d ↦ relay-IsSound m s t (rw (a, b, c, d) at e) v
          | inr d ↦ subst IsSound (ok_eq (rw (a, b, c, d) at e)) v
        ]
      ]
    ]
  ]

  pub proxy_reads-IsSound :
      (p : ProxyConnection) (text : Text) (s t : State)
      → Proxy.handle env p text s ≡ ok t
      → IsSound s
      → IsSound t
  unfolding Proxy.handle handle_wire
  proxy_reads-IsSound p text s t e v = elim (Option-cases (env.unmarshal text)) [
    | inl bad ↦ subst IsSound (ok_eq (rw bad at e)) v
    | inr (m, good) ↦ proxy_message-IsSound p m s t (rw good at e) v
  ]

  pub dispatch-IsSound : (s t : State) → Socket.dispatch env s ≡ ok t → IsSound s → IsSound t
  unfolding Socket.dispatch
  dispatch-IsSound s t e v = elim (Option-cases (Chan.receive s.sock.broadcast_buffer)) [
    | inl idle ↦ subst IsSound (ok_eq (rw idle at e)) v
    | inr ((m, rest), some_) ↦ returned IsSound e (dispatch_lem env s m rest v.live some_) (record {
      same_lists = v.same_lists;
      notified_once = v.notified_once;
      channel = receive-IsChan s.sock.broadcast_buffer rest some_ v.channel;
      capacity = capacity-receive s.sock.broadcast_buffer rest some_ ∙ v.capacity;
      live = record {
        of_controllers = v.live.of_controllers;
        of_peers = v.live.of_peers;
        of_proxies = v.live.of_proxies;
      };
      pumps_live = v.pumps_live;
    })
  ]

  pub ping-IsSound :
      (ws : Option ℕ) (s t : State) → discovery_self.Step.ping ws s ≡ ok t → IsSound s → IsSound t
  unfolding discovery_self.Step.ping
  ping-IsSound none s t e v = absurd (clash e)
    where
      clash : crash discovery_self.Step.nil_dereference ≡ ok t → ⊥
      clash h = cc
  ping-IsSound (some c) s t e v = subst IsSound (ok_eq e) (emitted _ s v)
