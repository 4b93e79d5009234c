-- ===== src/Process/Started.antt =====
-- The process from its start on (run.go).
use discovery_self.Base.{
  ℕ, ◌+◌, [], ◌∷◌, ◌++◌, none, some, Text, codes, text_eq, text_eq_refl, ◌≡◌, ◌≢◌, refl, sym, ◌∙◌,
  true, false, ◌==◌, ==_iff, ==_refl, arith, Bool-cases, inl, inr, subst,
}
use discovery_self.Env.{Env}
use discovery_self.Socket.{Upgrader, new_named_web_socket}
use discovery_self.Service.{
  World, new_named_web_socket_service, new_socket, set_named_web_sockets, lookup_path, insert_path,
}
use discovery_self.Service.Found.{lookup-insert_path}
use discovery_self.Start.{main_, start_socket, start_path, new_world, get_named_web_sockets}
use discovery_self.Process.{Turns}
use discovery_self.Process.Invariant.{IsProcess, fresh-IsProcess}
use discovery_self.Process.Sockets.{new-IsProcess}
use discovery_self.Process.Kept.{Turns-IsProcess}

-- The process with no socket.
abbrev pub first_world : Text → World
first_world hostname = new_world (new_named_web_socket_service hostname 2000)

pub first_world-IsProcess : (hostname : Text) → IsProcess (first_world hostname)
unfolding new_world new_named_web_socket_service
first_world-IsProcess hostname = fresh-IsProcess (first_world hostname) refl refl refl refl

pub start_socket-IsProcess : (v w : World) → start_socket none v ≡ w → IsProcess v → IsProcess w
unfolding start_socket get_named_web_sockets
start_socket-IsProcess v w e h = rw (← e) (new-IsProcess start_path (codes "Mediascape") true v h)

-- In every state that the program reaches the sockets are in order: it starts with none, the HTTP server
-- serves what it will before the program makes its own socket, and then requests whose upgrades
-- succeed, entries of the browser, advertisements and the goroutines of the sockets follow on one
-- another in any order. Each socket is sound, all share two equal lists of notified texts
-- without repetition, every path leads to a socket that there is, and no two paths to the same.
pub main-IsProcess :
    (env : Env) (upgrade : Upgrader) (hostname : Text) (served : World → World) (w x : World)
    → Turns env upgrade (first_world hostname) (served (first_world hostname))
    → main_ (some hostname) served ≡ some w
    → Turns env upgrade w x
    → IsProcess x
unfolding main_
main-IsProcess env upgrade hostname served w x before e after =
    Turns-IsProcess env upgrade w x after (
      start_socket-IsProcess (served (first_world hostname)) w (some_eq e) (
        Turns-IsProcess env upgrade (first_world hostname) (served (first_world hostname)) before
          (first_world-IsProcess hostname)))
  where
    some_eq : {a b : World} → some a ≡ some b → a ≡ b
    some_eq h = cc

-- The start makes a socket of its own even where one is at its path. The HTTP server, whose upgrades
-- succeed, served before in a process without sockets, and put socket `i` at /network/Mediascape.
-- Then the start makes one more socket, new and named "Mediascape", has it advertised and puts it at
-- that path, and no path leads to `i` any more, with whatever connections it has: it stays as it is,
-- beside the new one, where no request finds it.
pub main-overwrites :
    (env : Env) (upgrade : Upgrader) (hostname : Text) (served : World → World) (i : ℕ)
    → Turns env upgrade (first_world hostname) (served (first_world hostname))
    → lookup_path start_path (served (first_world hostname)).service.named_web_sockets ≡ some i
    → (w : World) × (main_ (some hostname) served ≡ some w)
      × (w.next_sock ≡ (served (first_world hostname)).next_sock + 1)
      × (lookup_path start_path w.service.named_web_sockets
          ≡ some (served (first_world hostname)).next_sock)
      × (w.heap (served (first_world hostname)).next_sock
          ≡ new_named_web_socket (codes "Mediascape"))
      × (w.advertising
          ≡ (served (first_world hostname)).advertising
            ++ (served (first_world hostname)).next_sock ∷ [])
      × (w.heap i ≡ (served (first_world hostname)).heap i)
      × (w.pumps i ≡ (served (first_world hostname)).pumps i)
      × ((path : Text) → lookup_path path w.service.named_web_sockets ≢ some i)
unfolding main_ start_socket get_named_web_sockets new_socket set_named_web_sockets
main-overwrites env upgrade hostname served i before there = (
  _,
  refl,
  refl,
  lookup-insert_path start_path start_path v.next_sock v.service.named_web_sockets
      ∙ rw (text_eq_refl start_path) refl,
  rw (==_refl v.next_sock) refl,
  refl,
  rw older refl,
  rw older refl,
  left_out,
)
  where
    v : World
    v = served (first_world hostname)

    h : IsProcess v
    h = Turns-IsProcess env upgrade (first_world hostname) v before (first_world-IsProcess hostname)

    older : (v.next_sock == i) ≡ false
    older = elim (Bool-cases (v.next_sock == i)) [
      | inl hit ↦
          let used = h.resolved start_path i there in
          let same = (==_iff v.next_sock i).0 hit in absurd (omega (arith, used, same))
      | inr miss ↦ miss
    ]

    left_out :
        (path : Text)
        → lookup_path path (insert_path start_path v.next_sock v.service.named_web_sockets) ≢ some i
    left_out path e = elim (Bool-cases (text_eq start_path path)) [
      | inl hit ↦ clash (
          some_inj (
            rw hit at (
              sym (lookup-insert_path start_path path v.next_sock v.service.named_web_sockets)
              ∙ e)))
      | inr miss ↦ apart miss (
          rw miss at
            (sym (lookup-insert_path start_path path v.next_sock v.service.named_web_sockets) ∙ e))
    ]
      where
        some_inj : {x y : ℕ} → some x ≡ some y → x ≡ y
        some_inj e' = cc

        clash : v.next_sock ≡ i → ⊥
        clash same = let used = h.resolved start_path i there in omega (arith, used, same)

        apart :
            text_eq start_path path ≡ false
            → lookup_path path v.service.named_web_sockets ≡ some i
            → ⊥
        apart miss at_ = differ (
            subst (λ k. text_eq start_path k ≡ false) (sym (h.apart start_path path i there at_))
              miss)
          where
            differ : text_eq start_path start_path ≡ false → ⊥
            differ x = cc (text_eq_refl start_path)
