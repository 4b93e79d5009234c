-- ===== src/System/Running.antt =====
-- The pumps that run on (readConnectionPump and writeConnectionPump of peer.go, control.go and
-- proxy.go).
use discovery_self.Base.{ℕ, List, [], ◌∷◌, ◌++◌, Option, ◌≡◌, ◌≢◌, sym, Bool, inl, inr, subst}
use discovery_self.Env.{Env}
use discovery_self.Model.{State, Pump, peer_read, control_read, proxy_read}
use discovery_self.Step.{ok}
use discovery_self.Step.Emits.{IsLive}
use discovery_self.Peer
use discovery_self.Control
use discovery_self.Proxy
use discovery_self.Proxy.{handle_wire, handle_message, relay}
use discovery_self.System.{
  Occurs, join_proxy, Next, peer_joins, control_joins, proxy_joins, peer_reads, control_reads,
  proxy_reads, peer_ends, control_ends, proxy_ends, peer_pings, control_pings, proxy_pings,
  dispatches,
}
use discovery_self.System.Invariant.{IsSound}
use discovery_self.System.Comings.{returned}
use discovery_self.System.Stays.{peer_reads-Stays, control_reads-Stays, dispatch-Stays, ping-Stays}
use discovery_self.System.Stays.Proxies.{proxy_reads-Stays}
use discovery_self.System.Reachable.{stopped}

-- A step that does not end the pump `w`.
abbrev pub IsSpared : (env : Env) (w : Pump) (s t : State) → Next env s t → Type 0
IsSpared env w s t (peer_joins p h e) = Unit
IsSpared env w s t (control_joins x h e) = Unit
IsSpared env w s t (proxy_joins id ws b h e) = Unit
IsSpared env w s t (peer_reads p text r e) = Unit
IsSpared env w s t (control_reads x text r e) = Unit
IsSpared env w s t (proxy_reads p text r e) = Unit
IsSpared env w s t (peer_ends p xs ys r e) = peer_read p ≢ w
IsSpared env w s t (control_ends x xs ys r e) = control_read x ≢ w
IsSpared env w s t (proxy_ends p xs ys r e) = proxy_read p ≢ w
IsSpared env w s t (peer_pings p r e) = Unit
IsSpared env w s t (control_pings x r e) = Unit
IsSpared env w s t (proxy_pings p r e) = Unit
IsSpared env w s t (dispatches e) = Unit

Occurs-append : (p : Pump) (ps qs : List Pump) → Occurs p ps → Occurs p (ps ++ qs)
Occurs-append p [] qs h = absurd h
Occurs-append p (x ∷ ps) qs (inl e) = inl e
Occurs-append p (x ∷ ps) qs (inr h) = inr (Occurs-append p ps qs h)

Occurs-two : (w p q : Pump) (ps : List Pump) → Occurs w ps → Occurs w ((ps ++ p ∷ []) ++ q ∷ [])
Occurs-two w p q ps h = Occurs-append w (ps ++ p ∷ []) (q ∷ []) (Occurs-append w ps (p ∷ []) h)

Occurs-others :
    (w p : Pump) (xs ys : List Pump) → p ≢ w → Occurs w (xs ++ p ∷ ys) → Occurs w (xs ++ ys)
Occurs-others w p [] ys apart (inl e) = absurd (apart e)
Occurs-others w p [] ys apart (inr h) = h
Occurs-others w p (x ∷ xs) ys apart (inl e) = inl e
Occurs-others w p (x ∷ xs) ys apart (inr h) = inr (Occurs-others w p xs ys apart h)

module _ (env : Env) where
  join_proxy-Occurs :
      (id : ℕ) (ws : Option ℕ) (b : Bool) (s t : State) (w : Pump)
      → IsLive ws
      → join_proxy env id ws b s ≡ ok t
      → Occurs w s.running
      → Occurs w t.running
  unfolding join_proxy
  join_proxy-Occurs id ws b s t w h e o =
      returned (λ u. Occurs w u.running) e
        (Proxy.Membership.add_connection_lem env (Proxy.new_proxy_connection id ws b s).0
          (Proxy.new_proxy_connection id ws b s).1 h)
        (Occurs-two w _ _ s.running o)

  pub Next-Occurs :
      (w : Pump) (s t : State) (st : Next env s t)
      → IsSpared env w s t st
      → IsSound s
      → Occurs w s.running
      → Occurs w t.running
  unfolding Peer.write_connection_pump Control.write_connection_pump Proxy.write_connection_pump
  Next-Occurs w s t (peer_joins p h e) i v o =
      returned (λ u. Occurs w u.running) e (Peer.Membership.add_connection_lem env p s v.live)
        (Occurs-two w _ _ s.running o)
  Next-Occurs w s t (control_joins c h e) i v o =
      returned (λ u. Occurs w u.running) e (Control.Membership.controller_catches_up env c s h)
        (Occurs-two w _ _ s.running o)
  Next-Occurs w s t (proxy_joins id ws b h e) i v o = join_proxy-Occurs id ws b s t w h e o
  Next-Occurs w s t (peer_reads p text r e) i v o =
      subst (Occurs w) (sym (peer_reads-Stays env p text s t e).running) o
  Next-Occurs w s t (control_reads c text r e) i v o =
      subst (Occurs w) (sym (control_reads-Stays env c text s t v.live e).running) o
  Next-Occurs w s t (proxy_reads p text r e) i v o =
      subst (Occurs w) (sym (proxy_reads-Stays env p text s t v.live e).0.running) o
  Next-Occurs w s t (peer_ends p xs ys r e) i v o =
      let (h, v') = stopped s xs ys (peer_read p) r v in
      returned (λ u. Occurs w u.running) e (Peer.Membership.remove_connection_lem env p _ v'.live h)
        (Occurs-others w (peer_read p) xs ys i (subst (Occurs w) r o))
  Next-Occurs w s t (control_ends c xs ys r e) i v o =
      let (h, v') = stopped s xs ys (control_read c) r v in
      returned (λ u. Occurs w u.running) e (Control.Membership.remove_connection_lem c _ h)
        (Occurs-others w (control_read c) xs ys i (subst (Occurs w) r o))
  Next-Occurs w s t (proxy_ends p xs ys r e) i v o =
      let (h, v') = stopped s xs ys (proxy_read p) r v in
      returned (λ u. Occurs w u.running) e (Proxy.Membership.remove_connection_lem env p _ h)
        (Occurs-others w (proxy_read p) xs ys i (subst (Occurs w) r o))
  Next-Occurs w s t (peer_pings p r e) i v o =
      subst (Occurs w) (sym (ping-Stays env p.ws s t e).running) o
  Next-Occurs w s t (control_pings c r e) i v o =
      subst (Occurs w) (sym (ping-Stays env c.ws s t e).running) o
  Next-Occurs w s t (proxy_pings p r e) i v o =
      subst (Occurs w) (sym (ping-Stays env p.ws s t e).running) o
  Next-Occurs w s t (dispatches e) i v o =
      subst (Occurs w) (sym (dispatch-Stays env s t v.live e).running) o
