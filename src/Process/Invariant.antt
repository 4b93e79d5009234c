-- ===== src/Process/Invariant.antt =====
-- All sockets of the process at once (service.go).
use discovery_self.Base.{
  ℕ, All, ◌<◌, List, [], none, some, Text, ◌≡◌, refl, sym, ◌∙◌, true, ◌==◌, ==_iff, arith, subst,
  Bool-cases, inl, inr, ap,
}
use discovery_self.Chan.{IsChan}
use discovery_self.Live.{AllLive}
use discovery_self.Model.{State, NamedWebSocket, DiscoveryClient}
use discovery_self.Service.{World, set_at, focus, unfocus, lookup_path}
use discovery_self.System.Distinct.{Distinct}
use discovery_self.System.Invariant.{IsSound, PumpLive}

-- Every socket is sound, with the lists of notified texts that all share; paths lead to sockets that
-- there are, and different paths to different ones.
pub record IsProcess (w : World) : Type 0 where
  pub same_lists : w.peer_notified_list ≡ w.proxy_notified_list
  pub notified_once : Distinct w.peer_notified_list
  pub sound : (i : ℕ) → i < w.next_sock → IsSound (focus i w)
  pub resolved :
      (path : Text) (i : ℕ)
      → lookup_path path w.service.named_web_sockets ≡ some i
      → i < w.next_sock
  pub apart :
      (path other : Text) (i : ℕ)
      → lookup_path path w.service.named_web_sockets ≡ some i
      → lookup_path other w.service.named_web_sockets ≡ some i
      → path ≡ other

-- A socket that is as before, in a process whose lists of notified texts are in order.
lists_moved :
    (s t : State)
    → t.sock ≡ s.sock
    → t.running ≡ s.running
    → t.peer_notified_list ≡ t.proxy_notified_list
    → Distinct t.peer_notified_list
    → IsSound s
    → IsSound t
lists_moved s t same pumps lists once v = record {
  same_lists = lists;
  notified_once = once;
  channel = subst (λ (n : NamedWebSocket). IsChan n.broadcast_buffer) (sym same) v.channel;
  capacity = ap (λ (n : NamedWebSocket). n.broadcast_buffer.capacity) same ∙ v.capacity;
  live = subst AllLive (sym same) v.live;
  pumps_live = subst (All PumpLive) (sym pumps) v.pumps_live;
}

-- One socket moves on, by a step that leaves it sound.
pub unfocus-IsProcess :
    (i : ℕ) (t : State) (w : World) → IsSound t → IsProcess w → IsProcess (unfocus i w t)
unfocus-IsProcess i t w h v = record {
  same_lists = h.same_lists;
  notified_once = h.notified_once;
  sound = λ j used. elim (Bool-cases (i == j)) [
    | inl hit ↦
        lists_moved t (focus j (unfocus i w t)) (rw hit refl) (rw hit refl) h.same_lists
          h.notified_once h
    | inr miss ↦
        lists_moved (focus j w) (focus j (unfocus i w t)) (rw miss refl) (rw miss refl) h.same_lists
          h.notified_once (v.sound j used)
  ];
  resolved = v.resolved;
  apart = v.apart;
}

-- What is written, and what is advertised or registered, is no part of it.
pub record SameSockets (w x : World) : Type 0 where
  pub heap : (i : ℕ) → x.heap i ≡ w.heap i
  pub pumps : (i : ℕ) → x.pumps i ≡ w.pumps i
  pub peer_notified : x.peer_notified_list ≡ w.peer_notified_list
  pub proxy_notified : x.proxy_notified_list ≡ w.proxy_notified_list
  pub next_sock : x.next_sock ≡ w.next_sock
  pub paths : x.service.named_web_sockets ≡ w.service.named_web_sockets

pub SameSockets-IsProcess : (w x : World) → SameSockets w x → IsProcess w → IsProcess x
SameSockets-IsProcess w x k v =
    let lists : x.peer_notified_list ≡ x.proxy_notified_list =
      k.peer_notified ∙ v.same_lists ∙ sym k.proxy_notified in
    let once = subst Distinct (sym k.peer_notified) v.notified_once in
    record {
      same_lists = lists;
      notified_once = once;
      sound = λ i used.
          lists_moved (focus i w) (focus i x) (k.heap i) (k.pumps i) lists once
            (v.sound i (subst (λ n. i < n) k.next_sock used));
      resolved = λ path i found.
          subst (λ n. i < n) (sym k.next_sock)
            (v.resolved path i (subst (λ m. lookup_path path m ≡ some i) k.paths found));
      apart = λ path other i a b.
          v.apart path other i (subst (λ m. lookup_path path m ≡ some i) k.paths a)
            (subst (λ m. lookup_path other m ≡ some i) k.paths b);
    }

-- A process without sockets.
pub fresh-IsProcess :
    (w : World)
    → w.next_sock ≡ 0
    → w.service.named_web_sockets ≡ []
    → w.peer_notified_list ≡ []
    → w.proxy_notified_list ≡ []
    → IsProcess w
unfolding lookup_path
fresh-IsProcess w n e a b = record {
  same_lists = a ∙ sym b;
  notified_once = subst Distinct (sym a) tt;
  sound = λ i used. absurd (clash (rw n at used));
  resolved = λ path i found. absurd (nothing (rw e at found));
  apart = λ path other i found also. absurd (nothing (rw e at found));
}
  where
    clash : {i : ℕ} → i < 0 → ⊥
    clash h = omega (arith, h)

    nothing : {i : ℕ} → none ≡ some i → ⊥
    nothing h = cc

-- A socket is given its discovery client.
pub with_client :
    (i : ℕ) (client : DiscoveryClient) (names : List Text) (w : World)
    → IsProcess w
    → IsProcess (record w {
      service = record w.service { advertised_service_names = names };
      heap = set_at w.heap i (record (w.heap i) { discovery_client = some client });
    })
with_client i client names w v = record {
  same_lists = v.same_lists;
  notified_once = v.notified_once;
  sound = λ j used. elim (Bool-cases (i == j)) [
    | inl hit ↦
        let u = v.sound i (subst (λ k. k < w.next_sock) (same hit) used) in
        rw hit (record {
          same_lists = v.same_lists;
          notified_once = v.notified_once;
          channel = u.channel;
          capacity = u.capacity;
          live = record {
            of_controllers = u.live.of_controllers;
            of_peers = u.live.of_peers;
            of_proxies = u.live.of_proxies;
          };
          pumps_live = (v.sound j used).pumps_live;
        })
    | inr miss ↦ rw miss (v.sound j used)
  ];
  resolved = v.resolved;
  apart = v.apart;
}
  where
    same : {j : ℕ} → (i == j) ≡ true → j ≡ i
    same {j} hit = sym ((==_iff i j).0 hit)
