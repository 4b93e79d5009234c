-- ===== src/Peer/Membership.antt =====
-- Peers that come and go (addConnection and removeConnection of peer.go).
use discovery_self.Base.{
  ℕ, List, [], ◌∷◌, ◌++◌, Option, none, some, Text, ◌≡◌, ◌≢◌, refl, ap, Bool-cases, inl, inr, All,
  flat_map, ◌==◌, ==_refl, sym, drop_first, find_first, append_assoc, subst, drop_first-none,
  drop_first-last, All-append, find_first-some, All-find_first, All-drop_first, ==_iff,
}
use discovery_self.Env.{Env, connect, disconnect}
use discovery_self.Model.{
  State, PeerConnection, ControlConnection, ProxyConnection, Effect, peer_read, peer_write,
}
use discovery_self.Step.{ok, ◌>>=◌, emit}
use discovery_self.Step.Emits.{IsLive, closing, emit-nil, close-live}
use discovery_self.Control
use discovery_self.Live.{AllLive, told_controller, told_proxy, tell_controllers, tell_proxies}
use discovery_self.Peer.{add_connection, remove_connection, close_control}

-- The controllers without the one of id `i`, and what closes with it.
abbrev pub controllers_without : ℕ → List ControlConnection → List ControlConnection
controllers_without i = drop_first (λ c. c.id == i)

abbrev pub closing_control : Option ControlConnection → List Effect
closing_control none = []
closing_control (some c) = closing c.ws

-- The news of a peer: to each controller of another id, and to each writeable proxy.
abbrev pub news :
    Env → Text → PeerConnection → List ControlConnection → List ProxyConnection → List Effect
news env action peer cs ps =
    flat_map (told_controller env action peer) cs ++ flat_map (told_proxy env action peer) ps

abbrev pub joined : Env → PeerConnection → State → State
joined env peer s = record s {
  sock = record s.sock { peers = s.sock.peers ++ peer ∷ [] };
  running = (s.running ++ peer_write peer ∷ []) ++ peer_read peer ∷ [];
  out = s.out ++ news env connect peer s.sock.controllers s.sock.proxies;
}

abbrev pub left : Env → PeerConnection → State → State
left env peer s =
    let cs = controllers_without peer.id s.sock.controllers in
    record s {
      sock = record s.sock {
        controllers = cs;
        peers = drop_first (λ p. p.id == peer.id) s.sock.peers;
      };
      out =
          s.out
          ++ closing_control (find_first (λ c. c.id == peer.id) s.sock.controllers)
          ++ news env disconnect peer cs s.sock.proxies
          ++ closing peer.ws;
    }

-- On a socket with no nil connection a new peer joins the list of peers, and nothing else changes
-- but that its two pumps start and that the news of it is written: "connect" with its id to every
-- controller of another id and to every writeable proxy, in their order.
pub add_connection_lem :
    (env : Env) (peer : PeerConnection) (s : State)
    → AllLive s.sock
    → add_connection env peer s ≡ ok (joined env peer s)
unfolding add_connection
add_connection_lem env peer s h =
    rw (tell_controllers env connect peer s.sock.controllers _ h.of_controllers) (
      rw (tell_proxies env connect peer s.sock.proxies _ h.of_proxies)
        (ap (λ o. ok (record (joined env peer s) { out = o })) (append_assoc s.out _ _)))

close_control-live :
    (s : State) (i : ℕ) (o : Option ControlConnection)
    → find_first (λ c. c.id == i) s.sock.controllers ≡ o
    → All (λ (c : ControlConnection). IsLive c.ws) s.sock.controllers
    → close_control o s
      ≡ ok (
          emit (closing_control o) (record s {
            sock = record s.sock { controllers = controllers_without i s.sock.controllers };
          }))
unfolding close_control Control.remove_connection
close_control-live s i none e h =
    rw (drop_first-none (λ c. c.id == i) s.sock.controllers e) (ap ok (sym (emit-nil s)))
close_control-live s i (some c) e h =
    rw ((==_iff c.id i).0 (find_first-some _ s.sock.controllers e))
      (close-live c.ws _ (All-find_first _ _ s.sock.controllers h e))

-- On a socket with no nil connection a peer that is torn down leaves the list (the first of its id),
-- with the first controller of its id, which is closed; then "disconnect" with its id is written
-- to the controllers of another id that are left and to the writeable proxies, and the peer's own
-- connection is closed. Nothing else changes.
pub remove_connection_lem :
    (env : Env) (peer : PeerConnection) (s : State)
    → AllLive s.sock
    → IsLive peer.ws
    → remove_connection env peer s ≡ ok (left env peer s)
unfolding remove_connection
remove_connection_lem env peer s h live =
    rw
      (close_control-live
        (record s {
          sock = record s.sock { peers = drop_first (λ p. p.id == peer.id) s.sock.peers };
        })
        peer.id _ refl h.of_controllers)
      (rw
        (tell_controllers env disconnect peer (controllers_without peer.id s.sock.controllers) _
          (All-drop_first _ _ s.sock.controllers h.of_controllers))
        (rw (tell_proxies env disconnect peer s.sock.proxies _ h.of_proxies) (
          rw (close-live peer.ws _ live) (
            ap (λ o. ok (record (left env peer s) { out = o ++ closing peer.ws }))
              (append_assoc (s.out ++ closing_control _) _ _)))))

-- A peer of a new id that comes and then goes leaves the lists of peers and proxies as they were,
-- and takes away only the first controller of its own id.
pub remove-add_connection :
    (env : Env) (peer : PeerConnection) (s : State)
    → AllLive s.sock
    → IsLive peer.ws
    → find_first (λ p. p.id == peer.id) s.sock.peers ≡ none
    → (t : State) × ((add_connection env peer s >>= remove_connection env peer) ≡ ok t)
      × (t.sock ≡ record s.sock { controllers = controllers_without peer.id s.sock.controllers })
remove-add_connection env peer s h live fresh = (
  left env peer (joined env peer s),
  rw (add_connection_lem env peer s h) (remove_connection_lem env peer (joined env peer s) h' live),
  ap
      (λ ps. record s.sock {
        controllers = controllers_without peer.id s.sock.controllers;
        peers = ps;
      })
      (drop_first-last _ s.sock.peers peer (==_refl peer.id) fresh),
)
  where
    h' : AllLive (joined env peer s).sock
    h' = record {
      of_controllers = h.of_controllers;
      of_peers =
          All-append (λ (p : PeerConnection). IsLive p.ws) s.sock.peers (peer ∷ []) h.of_peers
            (live, tt);
      of_proxies = h.of_proxies;
    }

All-after : {A : Type 0} (P : A → Type 0) (xs ys : List A) → All P (xs ++ ys) → All P ys
All-after P [] ys h = h
All-after P (x ∷ xs) ys h = All-after P xs ys h.1

-- The first peer of an id is the one that is dropped.
drop_first-of_id :
    (i : ℕ) (before : List PeerConnection) (p : PeerConnection) (rest : List PeerConnection)
    → All (λ (r : PeerConnection). r.id ≢ i) before
    → p.id ≡ i
    → drop_first (λ (r : PeerConnection). r.id == i) (before ++ p ∷ rest) ≡ before ++ rest
drop_first-of_id i [] p rest h same = rw (same, ==_refl i) refl
drop_first-of_id i (x ∷ before) p rest (h, hs) same = elim (Bool-cases (x.id == i)) [
  | inl hit ↦ absurd (h ((==_iff x.id i).0 hit))
  | inr miss ↦ rw miss (ap (λ l. x ∷ l) (drop_first-of_id i before p rest hs same))
]

-- Peers are told apart by their id alone. On a socket with no nil connection, of two peers of one id,
-- before which there is none of that id, the teardown of the second takes the first off the list, and
-- the second stays. What is closed is the controller of that id, if there is one, and the second's
-- connection; between the two the news of the departure is written.
pub remove_connection_shadowed :
    (env : Env) (before : List PeerConnection) (p : PeerConnection) (middle : List PeerConnection)
    (q : PeerConnection) (after : List PeerConnection) (s : State)
    → AllLive s.sock
    → s.sock.peers ≡ before ++ p ∷ (middle ++ q ∷ after)
    → All (λ (r : PeerConnection). r.id ≢ q.id) before
    → p.id ≡ q.id
    → (t : State) × (remove_connection env q s ≡ ok t)
      × (t.sock.peers ≡ before ++ (middle ++ q ∷ after))
      × (t.out
          ≡ s.out
            ++ closing_control (find_first (λ c. c.id == q.id) s.sock.controllers)
            ++ news env disconnect q (controllers_without q.id s.sock.controllers) s.sock.proxies
            ++ closing q.ws)
remove_connection_shadowed env before p middle q after s h e none_before same = (
  left env q s,
  remove_connection_lem env q s h live,
  rw e (drop_first-of_id q.id before p (middle ++ q ∷ after) none_before same),
  refl,
)
  where
    live : IsLive q.ws
    live =
        (All-after (λ (r : PeerConnection). IsLive r.ws) middle (q ∷ after)
          (All-after (λ (r : PeerConnection). IsLive r.ws) before (p ∷ (middle ++ q ∷ after))
            (subst (All (λ (r : PeerConnection). IsLive r.ws)) e h.of_peers)).1).0
