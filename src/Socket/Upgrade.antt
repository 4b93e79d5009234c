-- ===== src/Socket/Upgrade.antt =====
-- Requests whose upgrade fails (serveService and serveControl of socket.go).
use discovery_self.Base.{
  ℕ, List, [], ◌∷◌, ◌++◌, Option, none, some, ap, append_assoc, codes, text_eq, text_eq_iff, ◌≡◌,
  ◌≢◌, ◌∙◌, refl, false, Bool-cases, inl, inr,
}
use discovery_self.Env.{Env}
use discovery_self.Model.{State, Request, PeerConnection, Effect, replied, peer_read, peer_write}
use discovery_self.Step.{ok, crash, nil_dereference, emit, ping, Step, ◌>>◌}
use discovery_self.Sends.{ReadEvent, start_reading}
use discovery_self.Live.{AllLive}
use discovery_self.Peer
use discovery_self.Socket.{
  Upgrader, serve_service, upgrade_to_web_socket, attach, refusal, report_upgrade, reply, refused,
}

abbrev nil_peer : ℕ → PeerConnection
nil_peer id = record { id = id; ws = none }

-- What is answered to a request whose upgrade fails: first the upgrader's own answer, if any.
abbrev pub refusals : Option ℕ → List Effect
refusals none = replied 404 ∷ []
refusals (some status) = replied status ∷ replied 404 ∷ []

-- After a GET request for a peer whose upgrade fails, on a socket with no nil connection, http.Error
-- is called with the upgrader's own status, if it answers, and then with 404; a peer with a nil
-- connection is added all the same, and its two pumps are started; in whatever state either of them
-- runs, it dereferences nil.
pub failed_upgrade :
    (env : Env) (upgrade : Upgrader) (r : Request) (id : ℕ) (answer : Option ℕ) (s : State)
    → r.method ≡ codes "GET"
    → r.proxy_header ≢ codes "true"
    → upgrade_to_web_socket env upgrade r ≡ refused answer
    → AllLive s.sock
    → (es : List Effect) × (t : State) × (serve_service env upgrade r id s ≡ ok t)
      × (t.out ≡ (s.out ++ refusals answer) ++ es)
      × (t.sock.peers ≡ s.sock.peers ++ record { id = id; ws = none } ∷ [])
      × (t.running
          ≡ (s.running ++ peer_write (record { id = id; ws = none }) ∷ [])
            ++ peer_read (record { id = id; ws = none }) ∷ [])
      × ((u : State) (evs : List ReadEvent)
          → Peer.read_connection_pump env (record { id = id; ws = none }) evs u
            ≡ crash nil_dereference)
      × ((u : State)
          → Peer.write_connection_pump (record { id = id; ws = none }) u ≡ crash nil_dereference)
unfolding serve_service attach Peer.new_peer_connection Peer.read_connection_pump
    Peer.write_connection_pump start_reading ping
failed_upgrade env upgrade r id answer s get header failed v =
    let told : State = emit (refusals answer) s in
    (
      _,
      Peer.Membership.joined env (nil_peer id) told,
      rw ((text_eq_iff r.method (codes "GET")).1 get, failed, not_proxy)
          (reported answer (Peer.add_connection env (nil_peer id))
            ∙ Peer.Membership.add_connection_lem env (nil_peer id) told (record {
              of_controllers = v.of_controllers;
              of_peers = v.of_peers;
              of_proxies = v.of_proxies;
            })),
      refl,
      refl,
      refl,
      λ u evs. refl,
      λ u. refl,
    )
  where
    not_proxy : text_eq r.proxy_header (codes "true") ≡ false
    not_proxy = elim (Bool-cases (text_eq r.proxy_header (codes "true"))) [
      | inl same ↦ absurd (header ((text_eq_iff r.proxy_header (codes "true")).0 same))
      | inr other ↦ other
    ]

    reported :
        (o : Option ℕ) (k : Step)
        → (refusal (refused o) >> report_upgrade (refused o) >> k) s ≡ k (emit (refusals o) s)
    reported none k = unfold refusal report_upgrade reply in refl
    reported (some status) k =
        unfold refusal report_upgrade reply in
        (ap (λ (out : List Effect). k (record s { out = out }))
          (append_assoc s.out (replied status ∷ []) (replied 404 ∷ [])))
