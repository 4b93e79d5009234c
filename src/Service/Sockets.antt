-- ===== src/Service/Sockets.antt =====
-- Requests whose id is too short to be advertised (serveWSCreator of service.go).
use discovery_self.Base.{
  ℕ, [], ◌∷◌, Option, none, some, Text, codes, text_eq, ◌≡◌, refl, ap, sym, ◌∙◌, Bool, true, false,
  split, join, lacks, atoi,
}
use discovery_self.Env.{Env}
use discovery_self.Model.{Request}
use discovery_self.Step.{ok}
use discovery_self.Socket
use discovery_self.Service.{
  World, serve_ws_creator, serve_parts, resolve, on_socket, service_path, last_two,
  is_network_request, is_control_request, is_valid_service_name, is_peer_id, begins_control,
  holds_control, ends_in_network, lookup_path, found_or_new,
}
use discovery_self.Service.Parts.{
  network, peer_path, socket_path, split-peer_path, valid_lacks_slash,
}
use discovery_self.Service.Found.{resolve-again, on_socket-service}
use discovery_self.Service.Routes.{IsUpgrade, accepted}

advertising-resolve :
    (path name : Text) (w : World) → (resolve path name false w).1.advertising ≡ w.advertising
unfolding resolve
advertising-resolve path name w = cases (lookup_path path w.service.named_web_sockets)
  where
    cases : (o : Option ℕ) → (found_or_new path name false w o).1.advertising ≡ w.advertising
    cases none = refl
    cases (some i) = refl

-- A request to /network/NAME/ID with a valid name, whose id is no run of four digits or more and holds
-- no slash, is not turned away: if it is served without a fault, it is served at the socket of the path
-- /network/NAME, which is resolved as that of a local socket and created if there is none. Nothing
-- more is advertised afterwards than before, and the path is taken: to resolve it again in that state,
-- be it as that of a network socket, gives that socket, changes nothing and so has nothing advertised.
pub short_id_unadvertised :
    (env : Env) (upgrade : Socket.Upgrader) (name id other : Text) (b : Bool) (r : Request)
    (w x : World)
    → is_valid_service_name name ≡ true
    → is_peer_id id ≡ false
    → lacks b'/' id ≡ true
    → IsUpgrade r
    → r.path ≡ peer_path network name id
    → serve_ws_creator env upgrade r w ≡ ok x
    → (i : ℕ) × (v : World) × (on_socket i (Socket.serve_service env upgrade r (atoi id)) v ≡ ok x)
      × (resolve (socket_path network name) name false w ≡ (i, v))
      × (x.advertising ≡ w.advertising)
      × (resolve (socket_path network name) other b x ≡ (i, x))
unfolding serve_parts last_two service_path
short_id_unadvertised env upgrade name id other b r w x valid short slash u at e =
    let parts =
      ap (split b'/') at ∙ split-peer_path network name id (valid_lacks_slash name valid) slash in
    let (i, v) = resolve (socket_path network name) name false w in
    let served : on_socket i (Socket.serve_service env upgrade r (atoi id)) v ≡ ok x =
      sym (
        accepted env upgrade r w u
        ∙ rw parts
            (rw (no_control r.path parts) (rw (no_network r.path parts, valid, join_parts) refl)))
      ∙ e in
    let (same, quiet) =
      on_socket-service i (Socket.serve_service env upgrade r (atoi id)) v x served in
    (
      i,
      v,
      served,
      refl,
      quiet ∙ advertising-resolve (socket_path network name) name w,
      resolve-again (socket_path network name) name other false b w x same,
    )
  where
    no_control :
        (path : Text)
        → split b'/' path ≡ [] ∷ codes "network" ∷ name ∷ id ∷ []
        → is_control_request path ≡ false
    no_control path parts =
        unfold is_control_request holds_control begins_control in (rw parts refl)

    no_network :
        (path : Text)
        → split b'/' path ≡ [] ∷ codes "network" ∷ name ∷ id ∷ []
        → is_network_request path ≡ false
    no_network path parts =
        unfold is_network_request last_two ends_in_network lacks text_eq in
        (rw (parts, valid, short) refl)

    join_parts : join b'/' ([] ∷ codes "network" ∷ name ∷ []) ≡ socket_path network name
    join_parts = unfold join in refl
