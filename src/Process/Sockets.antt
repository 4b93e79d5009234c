-- ===== src/Process/Sockets.antt =====
-- Sockets that are found by their path or made for it (serveWSCreator of service.go).
use discovery_self.Base.{
  ℕ, ◌+◌, ◌<◌, none, some, Text, text_eq, text_eq_iff, ◌≡◌, refl, sym, ◌∙◌, Bool, true, false, ◌==◌,
  arith, Bool-cases, Option-cases, inl, inr, ◌⊎◌,
}
use discovery_self.Chan
use discovery_self.Socket
use discovery_self.Service.{
  World, focus, lookup_path, resolve, found_or_new, new_socket, set_named_web_sockets,
}
use discovery_self.Service.Found.{lookup-insert_path}
use discovery_self.System.Invariant.{IsSound}
use discovery_self.Process.Invariant.{IsProcess}

-- The socket of a request, in a process in which it has one.
abbrev pub Resolved : ℕ × World → Type 0
Resolved (i, w) = IsProcess w × (i < w.next_sock)

module _ (path name : Text) (b : Bool) (w : World) (v : IsProcess w) where
  abbrev after : World
  after = (found_or_new path name b w none).1

  new-IsSound : (j : ℕ) → j < w.next_sock + 1 → IsSound (focus j after)
  unfolding new_socket set_named_web_sockets Socket.new_named_web_socket Chan.make
  new-IsSound j used = elim (Bool-cases (w.next_sock == j)) [
    | inl hit ↦ rw hit (record {
      same_lists = v.same_lists;
      notified_once = v.notified_once;
      channel = record { bounded = omega arith; full = inl refl };
      capacity = refl;
      live = record { of_controllers = tt; of_peers = tt; of_proxies = tt };
      pumps_live = tt;
    })
    | inr miss ↦ rw miss (v.sound j (earlier miss))
  ]
    where
      earlier : (w.next_sock == j) ≡ false → j < w.next_sock
      earlier miss = ground (arith, miss, used)

  -- A path leads to the new socket, or it led to one before.
  found_after :
      (q : Text) (i : ℕ)
      → lookup_path q after.service.named_web_sockets ≡ some i
      → ((text_eq path q ≡ true) × (i ≡ w.next_sock))
        ⊎ (lookup_path q w.service.named_web_sockets ≡ some i)
  unfolding new_socket set_named_web_sockets
  found_after q i e =
      let h = sym (lookup-insert_path path q w.next_sock w.service.named_web_sockets) ∙ e in
      elim (Bool-cases (text_eq path q)) [
        | inl hit ↦ inl (hit, sym (some_inj (rw hit at h)))
        | inr miss ↦ inr (rw miss at h)
      ]
    where
      some_inj : {x y : ℕ} → some x ≡ some y → x ≡ y
      some_inj e = cc

  -- The new socket is put at its path, whatever was there.
  pub new-IsProcess : IsProcess after
  unfolding new_socket set_named_web_sockets
  new-IsProcess = record {
    same_lists = v.same_lists;
    notified_once = v.notified_once;
    sound = new-IsSound;
    resolved = λ q i e. elim (found_after q i e) [
      | inl (hit, new) ↦ omega (arith, new)
      | inr old ↦ let h = v.resolved q i old in omega (arith, h)
    ];
    apart = λ p q i a c. elim (found_after p i a) [
      | inl (hit, new) ↦ elim (found_after q i c) [
        | inl (hit2, new2) ↦ sym ((text_eq_iff path p).0 hit) ∙ (text_eq_iff path q).0 hit2
        | inr old ↦ let h = v.resolved q i old in absurd (omega (arith, new, h))
      ]
      | inr old ↦ elim (found_after q i c) [
        | inl (hit, new) ↦ let h = v.resolved p i old in absurd (omega (arith, new, h))
        | inr old2 ↦ v.apart p q i old old2
      ]
    ];
  }

-- A path that is resolved has a socket, and all are in order.
pub resolve-Resolved :
    (path name : Text) (b : Bool) (w : World) → IsProcess w → Resolved (resolve path name b w)
unfolding resolve new_socket set_named_web_sockets
resolve-Resolved path name b w v =
    elim (Option-cases (lookup_path path w.service.named_web_sockets)) [
      | inl absent ↦ rw absent (new-IsProcess path name b w v, last)
      | inr (i, found) ↦ rw found (v, v.resolved path i found)
    ]
  where
    last : (found_or_new path name b w none).0 < (found_or_new path name b w none).1.next_sock
    last = omega arith
