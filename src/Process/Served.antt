-- ===== src/Process/Served.antt =====
-- No request is a fault, in a process whose sockets are in order (service.go, socket.go).
use discovery_self.Base.{
  ℕ, List, [], ◌∷◌, ◌++◌, Option, some, Text, codes, text_eq, to_lower, atoi, ◌≡◌, refl, Bool, true,
  false, Bool-cases, inl, inr,
}
use discovery_self.Env.{Env}
use discovery_self.Model.{State, Request}
use discovery_self.Step.{ok}
use discovery_self.Step.Emits.{IsLive}
use discovery_self.Live.{AllLive}
use discovery_self.Socket
use discovery_self.Socket.{
  Upgrader, serve_service, serve_control, upgrade_to_web_socket, connection_of, attach,
}
use discovery_self.Peer
use discovery_self.Peer.Notify.{Returns}
use discovery_self.Control
use discovery_self.Proxy
use discovery_self.Service.{
  World, serve_ws_creator, serve_parts, resolve, focus, is_network_request, is_control_request,
  is_valid_service_name, service_path,
}
use discovery_self.Service.Paths.{path_taken_apart}
use discovery_self.Process.Invariant.{IsProcess}
use discovery_self.Process.Sockets.{resolve-Resolved}
use discovery_self.Process.Requests.{served, upgraded}

module _ (env : Env) (upgrade : Upgrader) where
  attach-Returns :
      (is_proxy : Bool) (id : ℕ) (ws : Option ℕ) (s : State)
      → IsLive ws
      → AllLive s.sock
      → Returns (attach env upgrade is_proxy id ws s)
  unfolding attach Peer.new_peer_connection
  attach-Returns true id ws s h v = (
    _,
    Proxy.Membership.add_connection_lem env (Proxy.new_proxy_connection id ws true s).0
        (Proxy.new_proxy_connection id ws true s).1 h,
  )
  attach-Returns false id ws s h v =
      (_, Peer.Membership.add_connection_lem env (record { id = id; ws = ws }) s v)

  served-Returns :
      (is_control : Bool) (r : Request) (id : ℕ) (s : State)
      → IsLive (connection_of env upgrade r)
      → AllLive s.sock
      → Returns (served env upgrade is_control r id s)
  unfolding serve_service serve_control Socket.reply Control.new_control_connection
  served-Returns true r id s h v = elim (Bool-cases (text_eq r.method (codes "GET"))) [
    | inr other ↦ rw other (_, refl)
    | inl get ↦
        rw (get, upgraded env upgrade (upgrade_to_web_socket env upgrade r) _ s h)
          (
            _,
            Control.Membership.controller_catches_up env
                (record { peer_connection = record { id = id; ws = connection_of env upgrade r } })
                s h,
          )
  ]
  served-Returns false r id s h v = elim (Bool-cases (text_eq r.method (codes "GET"))) [
    | inr other ↦ rw other (_, refl)
    | inl get ↦
        rw (get, upgraded env upgrade (upgrade_to_web_socket env upgrade r) _ s h)
          (attach-Returns (text_eq r.proxy_header (codes "true")) id (connection_of env upgrade r) s
            h v)
  ]

  parts_served :
      (r : Request) (pre : List Text) (name id q : Text) (w : World)
      → IsLive (connection_of env upgrade r)
      → service_path (is_control_request r.path) (pre ++ name ∷ []) ≡ ok q
      → IsProcess w
      → Returns (serve_parts env upgrade r (some (pre, name, id)) w)
  unfolding serve_parts
  parts_served r pre name id q w h e v = elim (Bool-cases (is_valid_service_name name)) [
    | inr other ↦ rw (e, other) (_, refl)
    | inl valid ↦
        let (v', used) = resolve-Resolved q name (is_network_request r.path) w v in
        let (t, run) =
          served-Returns (is_control_request r.path) r (atoi id)
            (focus (resolve q name (is_network_request r.path) w).0
              (resolve q name (is_network_request r.path) w).1)
            h (v'.sound _ used).live in
        rw (e, valid) (rw run (_, refl))
  ]

  -- In a process whose sockets are in order, a request whose upgrade succeeds and whose path begins with
  -- a slash is served without a fault, whatever its method, its headers and its path are.
  pub request_served :
      (r : Request) (rest : Text) (w : World)
      → r.path ≡ b'/' ∷ rest
      → IsLive (connection_of env upgrade r)
      → IsProcess w
      → Returns (serve_ws_creator env upgrade r w)
  unfolding serve_ws_creator
  request_served r rest w at h v = elim (Bool-cases (text_eq r.method (codes "GET"))) [
    | inr other ↦ rw other (_, refl)
    | inl get ↦ elim (Bool-cases (text_eq (to_lower r.upgrade) (codes "websocket"))) [
      | inr other ↦ rw (get, other) (_, refl)
      | inl asked ↦
          let (pre, name, id, q, found, known) = path_taken_apart r.path rest at in
          rw (get, asked, found) (parts_served r pre name id q w h known v)
    ]
  ]
