-- ===== src/Network/Channel/Far.antt =====
-- What the goroutines of the machine at the other end do to the map of its proxy connection, and that
-- it can read whatever is in flight.
use discovery_self.Base.{
  ℕ, ◌<◌, List, [], ◌∷◌, Option, none, some, Text, text_eq, ◌≡◌, ◌≢◌, refl, ap, sym, ◌∙◌, Bool,
  ◌==◌, ==_iff, arith, subst, Bool-cases, Option-cases, inl, inr, All-find_first, All,
  if◌then◌else◌,
}
use discovery_self.Env.{Env, WireMessage, connect, disconnect, message, directmessage}
use discovery_self.Model.{State, ProxyConnection, peer_read, control_read, proxy_read}
use discovery_self.Step.{ok}
use discovery_self.Step.Emits.{IsLive, send_wire-live}
use discovery_self.Live.{AllLive, tell_owned}
use discovery_self.Sends.{control_send}
use discovery_self.Control.Relay.{controller_of}
use discovery_self.Peer
use discovery_self.Peer.Notify.{Returns}
use discovery_self.Control
use discovery_self.Proxy
use discovery_self.Proxy.{handle_wire, handle_message, relay}
use discovery_self.Proxy.Notify.{proxy_notify_returns}
use discovery_self.Proxy.Frames.{absorb}
use discovery_self.Sends.{IsFit}
use discovery_self.System.{
  Occurs, join_proxy, Next, peer_joins, control_joins, proxy_joins, peer_reads, control_reads,
  proxy_reads, peer_ends, control_ends, proxy_ends, peer_pings, control_pings, proxy_pings,
  dispatches,
}
use discovery_self.System.Comings.{returned}
use discovery_self.System.Invariant.{IsSound}
use discovery_self.System.Reachable.{stopped}
use discovery_self.System.Reads.{proxy_reads-IsSound}
use discovery_self.System.Running.{IsSpared, Next-Occurs}
use discovery_self.System.Stays.{
  Stays, peer_reads-Stays, control_reads-Stays, dispatch-Stays, ping-Stays,
}
use discovery_self.System.Stays.Proxies.{proxy_reads-Stays}
use discovery_self.Network.Handshake.{reads, read_frame}
use discovery_self.Network.Channel.{IsElsewhere}

-- The map `r`, which is in use, is as before.
abbrev pub Keeps : ℕ → State → State → Type 0
Keeps r s t = (t.maps r ≡ s.maps r) × (r < t.next_map)

module _ (env : Env) (r : ℕ) where
  Stays-Keeps :
      (q : Option ℕ) (s t : State) → Stays env q s t → q ≢ some r → r < s.next_map → Keeps r s t
  Stays-Keeps q s t v apart h = (v.maps r apart, subst (λ n. r < n) (sym v.next_map) h)

  none_apart : none ≢ some r
  none_apart e = cc

  new_map :
      (id : ℕ) (ws : Option ℕ) (b : Bool) (s t : State)
      → IsLive ws
      → join_proxy env id ws b s ≡ ok t
      → r < s.next_map
      → Keeps r s t
  unfolding join_proxy Proxy.new_proxy_connection
  new_map id ws b s t h e used =
      returned (λ u. Keeps r s u) e
        (Proxy.Membership.add_connection_lem env (Proxy.new_proxy_connection id ws b s).0
          (Proxy.new_proxy_connection id ws b s).1 h)
        (fresh, omega (arith, used))
    where
      fresh : (if s.next_map == r then [] else s.maps r) ≡ s.maps r
      fresh = elim (Bool-cases (s.next_map == r)) [
        | inl hit ↦ absurd (clash ((==_iff s.next_map r).0 hit))
        | inr miss ↦ rw miss refl
      ]
        where
          clash : s.next_map ≡ r → ⊥
          clash same = omega (arith, same, used)

pub Next-Keeps :
    (env : Env) (far : ProxyConnection) (s t : State) (st : Next env s t)
    → IsElsewhere env far s t st
    → IsSound s
    → far.peers < s.next_map
    → Keeps far.peers s t
unfolding Peer.write_connection_pump Control.write_connection_pump Proxy.write_connection_pump
Next-Keeps env far s t (peer_joins p h e) w v used =
    returned (λ u. Keeps far.peers s u) e (Peer.Membership.add_connection_lem env p s v.live)
      (refl, used)
Next-Keeps env far s t (control_joins c h e) w v used =
    returned (λ u. Keeps far.peers s u) e (Control.Membership.controller_catches_up env c s h)
      (refl, used)
Next-Keeps env far s t (proxy_joins id ws b h e) w v used =
    new_map env far.peers id ws b s t h e used
Next-Keeps env far s t (peer_reads p text r e) w v used =
    Stays-Keeps env far.peers none s t (peer_reads-Stays env p text s t e)
      (none_apart env far.peers) used
Next-Keeps env far s t (control_reads c text r e) w v used =
    Stays-Keeps env far.peers none s t (control_reads-Stays env c text s t v.live e)
      (none_apart env far.peers) used
Next-Keeps env far s t (proxy_reads p text r e) w v used =
    Stays-Keeps env far.peers (some p.peers) s t (proxy_reads-Stays env p text s t v.live e).0
      (λ same. w (some_inj same)) used
  where
    some_inj : some p.peers ≡ some far.peers → p.peers ≡ far.peers
    some_inj same = cc
Next-Keeps env far s t (peer_ends p xs ys r e) w v used =
    let (h, v') = stopped s xs ys (peer_read p) r v in
    returned (λ u. Keeps far.peers s u) e (Peer.Membership.remove_connection_lem env p _ v'.live h)
      (refl, used)
Next-Keeps env far s t (control_ends c xs ys r e) w v used =
    let (h, v') = stopped s xs ys (control_read c) r v in
    returned (λ u. Keeps far.peers s u) e (Control.Membership.remove_connection_lem c _ h)
      (refl, used)
Next-Keeps env far s t (proxy_ends p xs ys r e) w v used =
    let (h, v') = stopped s xs ys (proxy_read p) r v in
    returned (λ u. Keeps far.peers s u) e (Proxy.Membership.remove_connection_lem env p _ h)
      (refl, used)
Next-Keeps env far s t (peer_pings p r e) w v used =
    Stays-Keeps env far.peers none s t (ping-Stays env p.ws s t e) (none_apart env far.peers) used
Next-Keeps env far s t (control_pings c r e) w v used =
    Stays-Keeps env far.peers none s t (ping-Stays env c.ws s t e) (none_apart env far.peers) used
Next-Keeps env far s t (proxy_pings p r e) w v used =
    Stays-Keeps env far.peers none s t (ping-Stays env p.ws s t e) (none_apart env far.peers) used
Next-Keeps env far s t (dispatches e) w v used =
    Stays-Keeps env far.peers none s t (dispatch-Stays env s t v.live e) (none_apart env far.peers)
      used

-- The pump that reads from `far` runs on.
pub far_runs :
    (env : Env) (far : ProxyConnection) (s t : State) (st : Next env s t)
    → IsElsewhere env far s t st
    → IsSound s
    → Occurs (proxy_read far) s.running
    → Occurs (proxy_read far) t.running
far_runs env far s t st w v o = Next-Occurs env (proxy_read far) s t st (spared st w) v o
  where
    spared : (st : Next env s t) → IsElsewhere env far s t st → IsSpared env (proxy_read far) s t st
    spared (peer_joins p h e) w = tt
    spared (control_joins x h e) w = tt
    spared (proxy_joins id ws b h e) w = tt
    spared (peer_reads p text r e) w = tt
    spared (control_reads x text r e) w = tt
    spared (proxy_reads p text r e) w = tt
    spared (peer_ends p xs ys r e) w = λ same. cc
    spared (control_ends x xs ys r e) w = λ same. cc
    spared (proxy_ends p xs ys r e) w = w
    spared (peer_pings p r e) w = tt
    spared (control_pings x r e) w = tt
    spared (proxy_pings p r e) w = tt
    spared (dispatches e) w = tt

-- With the icon's path known, every frame is read without a fault.
message_returns :
    (env : Env) (path : Text) (far : ProxyConnection) (m : WireMessage) (s : State)
    → env.icon_path ≡ some path
    → AllLive s.sock
    → Returns (handle_message env far m s)
unfolding handle_message relay control_send
message_returns env path far m s icon v = elim (Bool-cases (text_eq m.action connect)) [
  | inl a ↦ rw a (_, tell_owned env connect m.target s.sock.controllers _ v.of_controllers)
  | inr a ↦ elim (Bool-cases (text_eq m.action disconnect)) [
    | inl b ↦
        rw (a, b) (_, tell_owned env disconnect m.target s.sock.controllers _ v.of_controllers)
    | inr b ↦ elim (Bool-cases (text_eq m.action message)) [
      | inl c ↦
          let (t, told, same) = proxy_notify_returns env m.payload path s icon in
          rw (a, b, c) (rw told (_, refl))
      | inr c ↦ elim (Bool-cases (text_eq m.action directmessage)) [
        | inl d ↦ elim (Option-cases (controller_of m.target s)) [
          | inl absent ↦ rw (a, b, c, d) (rw absent (s, refl))
          | inr (x, found) ↦
              rw (a, b, c, d)
                (rw found (
                  _,
                  send_wire-live env x.ws _ s
                      (All-find_first _ _ s.sock.controllers v.of_controllers found),
                ))
        ]
        | inr d ↦ rw (a, b, c, d) (s, refl)
      ]
    ]
  ]
]

frame_returns :
    (env : Env) (path : Text) (far : ProxyConnection) (frame : Text) (s : State)
    → env.icon_path ≡ some path
    → AllLive s.sock
    → Returns (Proxy.handle env far frame s)
unfolding Proxy.handle handle_wire
frame_returns env path far frame s icon v = elim (Option-cases (env.unmarshal frame)) [
  | inl bad ↦ (s, rw bad refl)
  | inr (m, good) ↦ let (t, e) = message_returns env path far m s icon v in (t, rw good e)
]

-- Reading what is in flight, all of it within the read limit, makes of the map what the frames make
-- of it, and leaves the pumps running.
pub drained :
    (env : Env) (path : Text) (far : ProxyConnection) (frames : List Text) (s : State)
    → env.icon_path ≡ some path
    → IsSound s
    → All IsFit frames
    → (t : State) × (Proxy.read_loop env far (reads frames) s ≡ ok t)
      × (t.running ≡ s.running)
      × (t.maps far.peers ≡ absorb env frames (s.maps far.peers))
unfolding Proxy.read_loop
drained env path far [] s icon v fit = (s, refl, refl, refl)
drained env path far (f ∷ fs) s icon v fit =
    let (t, e) = frame_returns env path far f s icon v.live in
    let (stays, owns) = proxy_reads-Stays env far f s t v.live e in
    let (u, run, on, h) =
      drained env path far fs t icon (proxy_reads-IsSound env far f s t e v) fit.1 in
    (
      u,
      read_frame env far f (reads fs) s t fit.0 e ∙ run,
      on ∙ stays.running,
      h ∙ ap (absorb env fs) owns,
    )
