-- ===== src/Process/Kept.antt =====
-- Entries of the browser, advertisements and goroutines keep the sockets in order, and so does all that
-- the process does.
use discovery_self.Base.{
  ℕ, ◌<◌, List, [], ◌∷◌, ◌++◌, some, Text, text_elem, ◌≡◌, refl, sym, Bool, true, false, Bool-cases,
  Option-cases, inl, inr, subst, itoa,
}
use discovery_self.Env.{Env}
use discovery_self.Step.{Result, ok, crash, Fault, Step, ◌>>=◌, ◌>>◌, emit, skip}
use discovery_self.Step.Inversion.{ok_eq, then_inv}
use discovery_self.Socket.{Upgrader}
use discovery_self.Service.{World, on_socket, focus}
use discovery_self.Discovery.{
  Dialer, ServiceEntry, short_name, is_network_service, path_of_info, path_base, host_port,
  join_dialed, mark_registered, try_hosts, connect_entry, browse_entry, advertise, register,
}
use discovery_self.System.{join_proxy}
use discovery_self.System.Comings.{proxy_joins-IsSound}
use discovery_self.System.Reachable.{Next-IsSound}
use discovery_self.Process.{Turn, Turns, requests, advertises, finds, runs, none_yet, then_}
use discovery_self.Process.Invariant.{
  IsProcess, unfocus-IsProcess, SameSockets-IsProcess, with_client,
}
use discovery_self.Process.Sockets.{resolve-Resolved}
use discovery_self.Process.Requests.{on_socket-IsProcess, serve_ws_creator-IsProcess}

module _ (env : Env) (upgrade : Upgrader) where
  try_hosts-IsProcess :
      (dial : Dialer) (short path : Text) (port id i : ℕ) (hosts : List Text) (w x : World)
      → i < w.next_sock
      → try_hosts env dial short path port id i hosts w ≡ ok x
      → IsProcess w
      → IsProcess x
  unfolding try_hosts join_dialed join_proxy mark_registered
  try_hosts-IsProcess dial short path port id i [] w x used e v = subst IsProcess (ok_eq e) v
  try_hosts-IsProcess dial short path port id i (h ∷ hs) w x used e v =
      elim (Option-cases (dial (host_port h port) (path ++ b'/' ∷ itoa id))) [
        | inl silent ↦ try_hosts-IsProcess dial short path port id i hs w x used (rw silent at e) v
        | inr (ws, answers) ↦
            let (y, run, same) =
              then_inv (on_socket i (join_dialed env id ws) w) (λ z. ok (mark_registered short z))
                (rw answers at e) in
            subst IsProcess (ok_eq same) (
              SameSockets-IsProcess y (mark_registered short y)
                (record {
                  heap = λ j. refl;
                  pumps = λ j. refl;
                  peer_notified = refl;
                  proxy_notified = refl;
                  next_sock = refl;
                  paths = refl;
                })
                (on_socket-IsProcess i (join_dialed env id ws) w y
                  (λ t ran u. proxy_joins-IsSound env id (some ws) false _ t tt ran u) used run v))
      ]

  browse_entry-IsProcess :
      (dial : Dialer) (id : ℕ) (e : ServiceEntry) (w x : World)
      → browse_entry env dial id e w ≡ ok x
      → IsProcess w
      → IsProcess x
  unfolding browse_entry connect_entry
  browse_entry-IsProcess dial id e w x run v =
      elim (Bool-cases (is_network_service (short_name e.name))) [
        | inr other ↦ subst IsProcess (ok_eq (rw other at run)) v
        | inl ours ↦
            elim (Bool-cases (text_elem (short_name e.name) w.service.advertised_service_names)) [
              | inl own ↦ subst IsProcess (ok_eq (rw (ours, own) at run)) v
              | inr foreign ↦
                  elim (Bool-cases
                    (text_elem (short_name e.name) w.service.registered_service_names)) [
                      | inl known ↦ subst IsProcess (ok_eq (rw (ours, foreign, known) at run)) v
                      | inr new ↦
                          let (path, at, rest) =
                            then_inv (path_of_info e.info) _ (rw (ours, foreign, new) at run) in
                          let (v', used) = resolve-Resolved path (path_base path) true w v in
                          try_hosts-IsProcess dial (short_name e.name) path e.port id _ _ _ x used
                            rest v'
                    ]
            ]
      ]

  advertise-IsProcess :
      (published : Bool) (uid i port : ℕ) (w x : World)
      → advertise published uid i port w ≡ ok x
      → IsProcess w
      → IsProcess x
  unfolding advertise register
  advertise-IsProcess published uid i port w x e v =
      elim (Option-cases (w.heap i).discovery_client) [
        | inr (client, known) ↦ subst IsProcess (ok_eq (rw known at e)) v
        | inl new ↦ elim (Bool-cases published) [
          | inr failed ↦ absurd (clash (rw (new, failed) at e))
          | inl done ↦ subst IsProcess (ok_eq (rw (new, done) at e)) (with_client i _ _ w v)
        ]
      ]
    where
      clash : {y : World} → crash discovery_self.Step.log_fatal ≡ ok y → ⊥
      clash h = cc

  pub Turn-IsProcess : (w x : World) → Turn env upgrade w x → IsProcess w → IsProcess x
  Turn-IsProcess w x (requests r h e) v = serve_ws_creator-IsProcess env upgrade r w x h e v
  Turn-IsProcess w x (advertises published uid i port e) v =
      advertise-IsProcess published uid i port w x e v
  Turn-IsProcess w x (finds dial id e run) v = browse_entry-IsProcess dial id e w x run v
  Turn-IsProcess w x (runs i t used st e) v =
      subst IsProcess (sym e)
        (unfocus-IsProcess i t w (Next-IsSound env (focus i w) t st (v.sound i used)) v)

  -- A process whose sockets are in order keeps them so: requests whose upgrades succeed, entries of
  -- the browser, advertisements and the goroutines of its sockets follow on one another in any order,
  -- and in every state that is reached each socket is sound, all share two equal lists of
  -- notified texts without repetition, every path leads to a socket that there is, and no two paths to
  -- the same.
  pub Turns-IsProcess : (w x : World) → Turns env upgrade w x → IsProcess w → IsProcess x
  Turns-IsProcess w x none_yet v = v
  Turns-IsProcess w x (then_ {x = y} ts t) v = Turn-IsProcess y x t (Turns-IsProcess w y ts v)
