-- ===== src/Control/Membership.antt =====
-- Control connections that come and go (addConnection and removeConnection of control.go).
use discovery_self.Base.{
  ℕ, List, [], ◌∷◌, ◌++◌, ◌∙◌, ◌≡◌, ap, sym, flat_map, if◌then◌else◌, ◌==◌, Bool-cases, inl, inr,
  drop_first, append_assoc, All,
}
use discovery_self.Env.{Env, connect}
use discovery_self.Model.{
  State, PeerConnection, ControlConnection, ProxyConnection, Effect, control_write, control_read,
}
use discovery_self.Step.{ok, emit, for_each}
use discovery_self.Step.Emits.{
  IsLive, emit-nil, emit-emit, closing, close-live, Writes, for_each-emits, send_wire-live,
  sent_wire,
}
use discovery_self.Live.{wire}
use discovery_self.Sends.{control_send}
use discovery_self.Control.{add_connection, remove_connection, tell_of_peer, tell_of_proxy}

-- What a controller hears of one of our peers, and of the peers that a proxy's machine owns.
abbrev pub told_of_peer : Env → ControlConnection → PeerConnection → List Effect
told_of_peer env c peer =
    if c.id == peer.id then [] else sent_wire env c.ws (wire connect c.id peer.id [])

abbrev pub told_of_id : Env → ControlConnection → ℕ → List Effect
told_of_id env c i = sent_wire env c.ws (wire connect c.id i [])

abbrev pub told_of_proxy : Env → ControlConnection → (ℕ → List ℕ) → ProxyConnection → List Effect
told_of_proxy env c maps p = flat_map (told_of_id env c) (env.range_order (maps p.peers))

abbrev pub joined : Env → ControlConnection → State → State
joined env c s = record s {
  sock = record s.sock { controllers = s.sock.controllers ++ c ∷ [] };
  running = (s.running ++ control_write c ∷ []) ++ control_read c ∷ [];
  out =
      s.out
      ++ (flat_map (told_of_peer env c) s.sock.peers
          ++ flat_map (told_of_proxy env c s.maps) s.sock.proxies);
}

abbrev pub left : ControlConnection → State → State
left c s = record s {
  sock = record s.sock { controllers = drop_first (λ d. d.id == c.id) s.sock.controllers };
  out = s.out ++ closing c.ws;
}

every {ℓ} : {A : Type ℓ} {P : A → Type 0} → ((x : A) → P x) → (xs : List A) → All P xs
every f [] = tt
every f (x ∷ xs) = (f x, every f xs)

tell_of_peer-Writes :
    (env : Env) (c : ControlConnection)
    → IsLive c.ws
    → (peer : PeerConnection) → Writes (tell_of_peer env c) (told_of_peer env c) peer
unfolding tell_of_peer control_send
tell_of_peer-Writes env c h peer s = elim (Bool-cases (c.id == peer.id)) [
  | inl own ↦ rw own (ap ok (sym (emit-nil s)))
  | inr other ↦ rw other (send_wire-live env c.ws (wire connect c.id peer.id []) s h)
]

tell_of_proxy_lem :
    (env : Env) (c : ControlConnection) (p : ProxyConnection) (s : State)
    → IsLive c.ws
    → tell_of_proxy env c p s ≡ ok (emit (told_of_proxy env c s.maps p) s)
unfolding tell_of_proxy control_send
tell_of_proxy_lem env c p s h =
    for_each-emits _ (told_of_id env c) (env.range_order (s.maps p.peers)) s
      (every (λ i s'. send_wire-live env c.ws (wire connect c.id i []) s' h) _)

-- Each round reads the maps, which a round before it, that only writes, has left alone.
tell_of_proxies :
    (env : Env) (c : ControlConnection) (ps : List ProxyConnection) (s : State)
    → IsLive c.ws
    → for_each ps (tell_of_proxy env c) s ≡ ok (emit (flat_map (told_of_proxy env c s.maps) ps) s)
unfolding for_each
tell_of_proxies env c [] s h = ap ok (sym (emit-nil s))
tell_of_proxies env c (p ∷ ps) s h = rw (tell_of_proxy_lem env c p s h) (
    tell_of_proxies env c ps (emit (told_of_proxy env c s.maps p) s) h
    ∙ ap ok (emit-emit (told_of_proxy env c s.maps p) _ s))

-- A controller whose connection is not nil joins the list, its pumps start, and it hears of the
-- peers of another id, and then of the ids that the proxies own, in the order in which the maps are
-- ranged over. Nothing else changes.
pub controller_catches_up :
    (env : Env) (c : ControlConnection) (s : State)
    → IsLive c.ws
    → add_connection env c s ≡ ok (joined env c s)
unfolding add_connection
controller_catches_up env c s h =
    rw
      (for_each-emits _ (told_of_peer env c) s.sock.peers _
        (every (tell_of_peer-Writes env c h) s.sock.peers))
      (rw (tell_of_proxies env c s.sock.proxies _ h)
        (ap (λ o. ok (record (joined env c s) { out = o })) (append_assoc s.out _ _)))

pub remove_connection_lem :
    (c : ControlConnection) (s : State) → IsLive c.ws → remove_connection c s ≡ ok (left c s)
unfolding remove_connection
remove_connection_lem c s h = close-live c.ws _ h
