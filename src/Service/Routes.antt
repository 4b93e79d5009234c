-- ===== src/Service/Routes.antt =====
-- Which socket a request reaches (serveWSCreator of service.go).
use discovery_self.Base.{
  ℕ, sym, [], ◌∷◌, ◌++◌, Text, codes, text_eq, text_eq_iff, ◌≡◌, refl, ap, ◌∙◌, true, false, ◌&&◌,
  ◌||◌, split, join, lacks, atoi, to_lower,
}
use discovery_self.Env.{Env}
use discovery_self.Model.{Request}
use discovery_self.Step.{Result, ok}
use discovery_self.Socket
use discovery_self.Service.{
  World, serve_ws_creator, serve_parts, resolve, on_socket, service_path, last_two,
  is_network_request, is_control_request, is_valid_service_name, is_peer_id, begins_control,
  holds_control, ends_in_network,
}
use discovery_self.Service.Parts.{
  valid_lacks_slash, id_lacks_slash, id_begins, Scope, scope_text, is_network, socket_path,
  peer_path, control_path, split-peer_path, split-control_path, network, local,
}
use discovery_self.Service.Found.{resolve-again, on_socket-service}

-- A request of a browser or of another proxy to upgrade a connection.
pub record IsUpgrade (r : Request) : Type 0 where
  pub get : r.method ≡ codes "GET"
  pub websocket : to_lower r.upgrade ≡ codes "websocket"

module _ (scope : Scope) (name id : Text) (valid : is_valid_service_name name ≡ true)
    (peer : is_peer_id id ≡ true) where
  network_of_peer : is_network_request (peer_path scope name id) ≡ is_network scope
  unfolding is_network_request last_two ends_in_network
  network_of_peer =
      rw
        (
          split-peer_path scope name id (valid_lacks_slash name valid) (id_lacks_slash id peer),
          valid,
          peer,
        )
        (of_scope scope)
    where
      of_scope :
          (x : Scope)
          → ((lacks 10 [] && text_eq (scope_text x) (codes "network")) && true && true)
            ≡ is_network x
      of_scope network = unfold text_eq lacks in refl
      of_scope local = unfold text_eq lacks in refl

  network_of_control : is_network_request (control_path scope name id) ≡ is_network scope
  unfolding is_network_request last_two ends_in_network
  network_of_control =
      rw
        (
          split-control_path scope name id (valid_lacks_slash name valid) (id_lacks_slash id peer),
          valid,
          peer,
        )
        (of_scope scope)
    where
      of_scope :
          (x : Scope)
          → ((lacks 10 []
                && (lacks 10 (codes "control") && text_eq (scope_text x) (codes "network")))
              && true
              && true)
            ≡ is_network x
      of_scope network = unfold text_eq lacks in refl
      of_scope local = unfold text_eq lacks in refl

  control_of_control : is_control_request (control_path scope name id) ≡ true
  unfolding is_control_request holds_control begins_control
  control_of_control =
      rw
        (
          split-control_path scope name id (valid_lacks_slash name valid) (id_lacks_slash id peer),
          valid,
          id_begins id peer,
        )
        (of_scope scope)
    where
      of_scope :
          (x : Scope)
          → (text_eq (codes "control") (codes "control")
                && (text_eq (scope_text x) (codes "network")
                    || text_eq (scope_text x) (codes "local"))
                && true
                && true
              || holds_control (scope_text scope ∷ name ∷ id ∷ []))
            ≡ true
      of_scope network = unfold text_eq in refl
      of_scope local = unfold text_eq in refl

  control_of_peer : is_control_request (peer_path scope name id) ≡ false
  unfolding is_control_request holds_control begins_control
  control_of_peer =
      rw (split-peer_path scope name id (valid_lacks_slash name valid) (id_lacks_slash id peer))
        refl

  joined_path : join b'/' ([] ∷ scope_text scope ∷ name ∷ []) ≡ socket_path scope name
  unfolding join
  joined_path = refl

  joined_control : join b'/' (scope_text scope ∷ name ∷ []) ≡ scope_text scope ++ b'/' ∷ name
  unfolding join
  joined_control = refl

-- A request that passes the two guards goes on to its path.
pub accepted :
    (env : Env) (upgrade : Socket.Upgrader) (r : Request) (w : World)
    → IsUpgrade r
    → serve_ws_creator env upgrade r w ≡ serve_parts env upgrade r (last_two (split b'/' r.path)) w
unfolding serve_ws_creator
accepted env upgrade r w u =
    rw ((text_eq_iff r.method (codes "GET")).1 u.get)
      (rw ((text_eq_iff (to_lower r.upgrade) (codes "websocket")).1 u.websocket) refl)

-- What a request does at the socket of a scope and a name, once its path is resolved.
abbrev pub serve_peer : Env → Socket.Upgrader → Scope → Text → Text → Request → World → Result World
serve_peer env upgrade scope name id r w =
    let (i, w') = resolve (socket_path scope name) name (is_network scope) w in
    on_socket i (Socket.serve_service env upgrade r (atoi id)) w'

abbrev pub serve_controller :
    Env → Socket.Upgrader → Scope → Text → Text → Request → World → Result World
serve_controller env upgrade scope name id r w =
    let (i, w') = resolve (socket_path scope name) name (is_network scope) w in
    on_socket i (Socket.serve_control env upgrade r (atoi id)) w'

peer_served :
    (env : Env) (upgrade : Socket.Upgrader) (scope : Scope) (name id : Text) (r : Request)
    (w : World)
    → is_valid_service_name name ≡ true
    → is_peer_id id ≡ true
    → IsUpgrade r
    → r.path ≡ peer_path scope name id
    → serve_ws_creator env upgrade r w ≡ serve_peer env upgrade scope name id r w
unfolding serve_parts last_two service_path
peer_served env upgrade scope name id r w valid peer u at =
    accepted env upgrade r w u
    ∙ rw
        (ap (split b'/') at
          ∙ split-peer_path scope name id (valid_lacks_slash name valid) (id_lacks_slash id peer))
        (rw (ap is_control_request at ∙ control_of_peer scope name id valid peer) (
          rw
            (
              ap is_network_request at ∙ network_of_peer scope name id valid peer,
              valid,
              joined_path scope name id valid peer,
            )
            refl))

controller_served :
    (env : Env) (upgrade : Socket.Upgrader) (scope : Scope) (name id : Text) (r : Request)
    (w : World)
    → is_valid_service_name name ≡ true
    → is_peer_id id ≡ true
    → IsUpgrade r
    → r.path ≡ control_path scope name id
    → serve_ws_creator env upgrade r w ≡ serve_controller env upgrade scope name id r w
unfolding serve_parts last_two service_path
controller_served env upgrade scope name id r w valid peer u at =
    accepted env upgrade r w u
    ∙ rw
        (ap (split b'/') at
          ∙ split-control_path scope name id (valid_lacks_slash name valid)
              (id_lacks_slash id peer))
        (rw (ap is_control_request at ∙ control_of_control scope name id valid peer) (
          rw
            (
              ap is_network_request at ∙ network_of_control scope name id valid peer,
              valid,
              joined_control scope name id valid peer,
            )
            refl))

-- For a valid name and an id of four digits or more, an upgrade request to /SCOPE/NAME/ID that is served
-- without a fault is served as that of a peer (or a proxy) of that id, at the socket of the path
-- /SCOPE/NAME, which is created in that scope if there is none. In the state after it an upgrade
-- request to /control/SCOPE/NAME/ID is served as that of a controller of that id, at the same socket,
-- and creates none.
pub control_shares_socket :
    (env : Env) (upgrade : Socket.Upgrader) (scope : Scope) (name id : Text) (r q : Request)
    (w x : World)
    → is_valid_service_name name ≡ true
    → is_peer_id id ≡ true
    → IsUpgrade r
    → IsUpgrade q
    → r.path ≡ peer_path scope name id
    → q.path ≡ control_path scope name id
    → serve_ws_creator env upgrade r w ≡ ok x
    → (i : ℕ) × (v : World) × (resolve (socket_path scope name) name (is_network scope) w ≡ (i, v))
      × (on_socket i (Socket.serve_service env upgrade r (atoi id)) v ≡ ok x)
      × (serve_ws_creator env upgrade q x
          ≡ on_socket i (Socket.serve_control env upgrade q (atoi id)) x)
control_shares_socket env upgrade scope name id r q w x valid peer ur uq rp qp e =
    let (i, v) = resolve (socket_path scope name) name (is_network scope) w in
    let served = sym (peer_served env upgrade scope name id r w valid peer ur rp) ∙ e in
    let (same, quiet) =
      on_socket-service i (Socket.serve_service env upgrade r (atoi id)) v x served in
    (
      i,
      v,
      refl,
      served,
      controller_served env upgrade scope name id q x valid peer uq qp
          ∙ ap
              (λ ((j, u) : ℕ × World). on_socket j (Socket.serve_control env upgrade q (atoi id)) u)
              (resolve-again (socket_path scope name) name name (is_network scope)
                (is_network scope) w x same),
    )
