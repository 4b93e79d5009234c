-- ===== src/Process/Requests.antt =====
-- Requests keep the sockets in order (service.go, socket.go).
use discovery_self.Base.{
  ℕ, ◌<◌, List, [], ◌∷◌, ◌++◌, Option, none, some, Text, codes, text_eq, to_lower, split, ◌≡◌, refl,
  sym, ◌∙◌, Bool, true, false, Bool-cases, inl, inr, subst, atoi, if◌then◌else◌,
}
use discovery_self.Env.{Env}
use discovery_self.Model.{State, Request, replied}
use discovery_self.Step.{ok, Step, ◌>>◌, emit}
use discovery_self.Step.Emits.{IsLive}
use discovery_self.Step.Inversion.{ok_eq, then_inv}
use discovery_self.Socket
use discovery_self.Socket.{
  Upgrader, Upgraded, opened, refused, connection, refusal, serve_service, serve_control,
  upgrade_to_web_socket, connection_of, attach, report_upgrade,
}
use discovery_self.Peer
use discovery_self.Control
use discovery_self.Service.{
  World, serve_ws_creator, serve_parts, resolve, on_socket, focus, unfocus, service_path, last_two,
  is_network_request, is_control_request, is_valid_service_name,
}
use discovery_self.System.{join_proxy}
use discovery_self.System.Comings.{peer_joins-IsSound, control_joins-IsSound, proxy_joins-IsSound}
use discovery_self.System.Invariant.{IsSound, SameCore-IsSound}
use discovery_self.Process.Invariant.{IsProcess, unfocus-IsProcess, SameSockets-IsProcess}
use discovery_self.Process.Sockets.{resolve-Resolved}

-- A step on a socket that leaves it sound.
pub on_socket-IsProcess :
    (i : ℕ) (step : Step) (w x : World)
    → ((t : State) → step (focus i w) ≡ ok t → IsSound (focus i w) → IsSound t)
    → i < w.next_sock
    → on_socket i step w ≡ ok x
    → IsProcess w
    → IsProcess x
on_socket-IsProcess i step w x keeps used e v =
    let (t, run, same) = then_inv (step (focus i w)) (λ s. ok (unfocus i w s)) e in
    subst IsProcess (ok_eq same) (unfocus-IsProcess i t w (keeps t run (v.sound i used)) v)

module _ (env : Env) (upgrade : Upgrader) where
  replied-IsSound : (s t : State) (n : ℕ) → emit (replied n ∷ []) s ≡ t → IsSound s → IsSound t
  replied-IsSound s t n e v = subst IsSound e (
      SameCore-IsSound {s = s} {t = emit (replied n ∷ []) s}
        (record { sock = refl; peer_notified = refl; proxy_notified = refl; running = refl }) v)

  attach-IsSound :
      (is_proxy : Bool) (id : ℕ) (ws : Option ℕ) (s t : State)
      → IsLive ws
      → attach env upgrade is_proxy id ws s ≡ ok t
      → IsSound s
      → IsSound t
  unfolding attach Peer.new_peer_connection join_proxy
  attach-IsSound true id ws s t h e v = proxy_joins-IsSound env id ws true s t h e v
  attach-IsSound false id ws s t h e v =
      peer_joins-IsSound env (record { id = id; ws = ws }) s t h e v

  pub upgraded :
      (o : Upgraded) (k : Step) (s : State)
      → IsLive (connection o)
      → (refusal o >> report_upgrade o >> k) s ≡ k s
  unfolding refusal report_upgrade
  upgraded (refused answer) k s h = absurd h
  upgraded (opened c) k s h = refl

  serve_service-IsSound :
      (r : Request) (id : ℕ) (s t : State)
      → IsLive (connection_of env upgrade r)
      → serve_service env upgrade r id s ≡ ok t
      → IsSound s
      → IsSound t
  unfolding serve_service Socket.reply
  serve_service-IsSound r id s t h e v = elim (Bool-cases (text_eq r.method (codes "GET"))) [
    | inl get ↦
        attach-IsSound (text_eq r.proxy_header (codes "true")) id (connection_of env upgrade r) s t
          h (sym (upgraded (upgrade_to_web_socket env upgrade r) _ s h) ∙ rw get at e) v
    | inr other ↦ replied-IsSound s t 405 (ok_eq (rw other at e)) v
  ]

  serve_control-IsSound :
      (r : Request) (id : ℕ) (s t : State)
      → IsLive (connection_of env upgrade r)
      → serve_control env upgrade r id s ≡ ok t
      → IsSound s
      → IsSound t
  unfolding serve_control Socket.reply Control.new_control_connection
  serve_control-IsSound r id s t h e v = elim (Bool-cases (text_eq r.method (codes "GET"))) [
    | inl get ↦
        control_joins-IsSound env
          (record { peer_connection = record { id = id; ws = connection_of env upgrade r } }) s t h
          (sym (upgraded (upgrade_to_web_socket env upgrade r) _ s h) ∙ rw get at e) v
    | inr other ↦ replied-IsSound s t 405 (ok_eq (rw other at e)) v
  ]

  abbrev pub served : Bool → Request → ℕ → Step
  served b r id = if b then serve_control env upgrade r id else serve_service env upgrade r id

  serve-IsSound :
      (b : Bool) (r : Request) (id : ℕ) (s t : State)
      → IsLive (connection_of env upgrade r)
      → served b r id s ≡ ok t
      → IsSound s
      → IsSound t
  serve-IsSound true r id s t h e v = serve_control-IsSound r id s t h e v
  serve-IsSound false r id s t h e v = serve_service-IsSound r id s t h e v

  http_error-IsProcess :
      (n : ℕ) (w x : World)
      → record w { out = w.out ++ replied n ∷ [] } ≡ x
      → IsProcess w
      → IsProcess x
  http_error-IsProcess n w x e v = subst IsProcess e (
      SameSockets-IsProcess w (record w { out = w.out ++ replied n ∷ [] })
        (record {
          heap = λ i. refl;
          pumps = λ i. refl;
          peer_notified = refl;
          proxy_notified = refl;
          next_sock = refl;
          paths = refl;
        })
        v)

  serve_parts-IsProcess :
      (r : Request) (o : Option (List Text × Text × Text)) (w x : World)
      → IsLive (connection_of env upgrade r)
      → serve_parts env upgrade r o w ≡ ok x
      → IsProcess w
      → IsProcess x
  unfolding serve_parts
  serve_parts-IsProcess r none w x h e v = cc
  serve_parts-IsProcess r (some (pre, name, id)) w x h e v =
      let (path, at, rest) =
        then_inv (service_path (is_control_request r.path) (pre ++ name ∷ [])) _ e in
      elim (Bool-cases (is_valid_service_name name)) [
        | inl valid ↦
            let (v', used) = resolve-Resolved path name (is_network_request r.path) w v in
            on_socket-IsProcess (resolve path name (is_network_request r.path) w).0
              (served (is_control_request r.path) r (atoi id))
              (resolve path name (is_network_request r.path) w).1 x
              (λ t run u. serve-IsSound (is_control_request r.path) r (atoi id) _ t h run u) used
              (rw valid at rest) v'
        | inr other ↦ http_error-IsProcess 404 w x (ok_eq (rw other at rest)) v
      ]

  pub serve_ws_creator-IsProcess :
      (r : Request) (w x : World)
      → IsLive (connection_of env upgrade r)
      → serve_ws_creator env upgrade r w ≡ ok x
      → IsProcess w
      → IsProcess x
  unfolding serve_ws_creator
  serve_ws_creator-IsProcess r w x h e v = elim (Bool-cases (text_eq r.method (codes "GET"))) [
    | inr other ↦ http_error-IsProcess 405 w x (ok_eq (rw other at e)) v
    | inl get ↦ elim (Bool-cases (text_eq (to_lower r.upgrade) (codes "websocket"))) [
      | inr other ↦ http_error-IsProcess 404 w x (ok_eq (rw (get, other) at e)) v
      | inl asked ↦
          serve_parts-IsProcess r (last_two (split b'/' r.path)) w x h (rw (get, asked) at e) v
    ]
  ]
