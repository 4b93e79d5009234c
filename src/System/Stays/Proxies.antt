-- ===== src/System/Stays/Proxies.antt =====
-- What a frame on a proxy's connection leaves as it was (the read loop of proxy.go), and what it does
-- to the ids that the proxy owns.
use discovery_self.Base.{
  ℕ, List, [], Option, none, some, Text, text_eq, ◌≡◌, ◌≢◌, refl, ap, sym, ◌∙◌, All, All-find_first,
  inl, inr, subst, Bool-cases, Option-cases, flat_map, ◌==◌, ==_iff, ==_refl,
}
use discovery_self.Env.{Env, WireMessage, connect, disconnect, message, directmessage}
use discovery_self.Model.{State, ControlConnection, ProxyConnection}
use discovery_self.Step.{ok}
use discovery_self.Step.Emits.{send_wire-live, All-map, sent_wire}
use discovery_self.Step.Writes.{IsOther, writes_to-wire_other}
use discovery_self.Live.{AllLive, wire, tell_owned, told_owned}
use discovery_self.Sends.{control_send}
use discovery_self.Control.Relay.{controller_of}
use discovery_self.Proxy
use discovery_self.Proxy.{handle_wire, handle_message, relay, insert_key, delete_key, update}
use discovery_self.Proxy.Frames.{
  owner_change, Silent, quiet-Silent, flat_map-Silent, sent_wire-Silent,
}
use discovery_self.Proxy.Notify.{proxy_notify_inv}
use discovery_self.Proxy.Ownership.{owned}
use discovery_self.System.Comings.{returned}
use discovery_self.Step.Inversion.{ok_eq, then_inv}
use discovery_self.System.Stays.{
  Stays, emit-Stays, same-Stays, broadcast-Stays, Remembers-Stays, message_silent,
}

module _ (env : Env) where
  owned-Silent :
      (action : Text) (k c : ℕ) (cs : List ControlConnection)
      → All (λ (x : ControlConnection). IsOther c x.ws) cs
      → Silent env c (flat_map (told_owned env action k) cs)
  owned-Silent action k c cs h = flat_map-Silent env c (told_owned env action k) cs (
      All-map
        (λ x o.
          quiet-Silent env c (sent_wire env x.ws (wire action x.id k []))
            (writes_to-wire_other env c (wire action x.id k []) x.ws o))
        cs h)

  -- A proxy's frame: what it does to the proxy's own map stands beside.
  abbrev Reads : ProxyConnection → Option WireMessage → State → State → Type 0
  Reads p w s t = Stays env (some p.peers) s t × (t.maps p.peers ≡ owner_change w (s.maps p.peers))

  owned-Reads :
      (action : Text) (p : ProxyConnection) (k : ℕ) (f : List ℕ → List ℕ) (w : Option WireMessage)
      (s : State)
      → owner_change w (s.maps p.peers) ≡ f (s.maps p.peers)
      → Reads p w s (owned env action k p f s)
  owned-Reads action p k f w s h = (
    record {
      es = flat_map (told_owned env action k) s.sock.controllers;
      written = refl;
      controllers = refl;
      peers = refl;
      proxies = refl;
      running = refl;
      next_map = refl;
      maps = λ j apart. elim (Bool-cases (p.peers == j)) [
        | inl hit ↦ absurd (apart (ap some ((==_iff p.peers j).0 hit)))
        | inr miss ↦ rw miss refl
      ];
      silent = λ spec c away. owned-Silent action k c s.sock.controllers away.of_controllers;
    },
    rw (==_refl p.peers) (sym h),
  )

  other-Reads :
      (p : ProxyConnection) (w : Option WireMessage) (s t : State)
      → owner_change w (s.maps p.peers) ≡ s.maps p.peers
      → Stays env none s t
      → Reads p w s t
  other-Reads p w s t h v = (
    record {
      es = v.es;
      written = v.written;
      controllers = v.controllers;
      peers = v.peers;
      proxies = v.proxies;
      running = v.running;
      next_map = v.next_map;
      maps = λ k apart. v.maps k none_some;
      silent = v.silent;
    },
    v.maps p.peers none_some ∙ sym h,
  )
    where
      none_some : {k : ℕ} → none ≢ some k
      none_some e = cc

  relay-Stays :
      (m : WireMessage) (s t : State) → AllLive s.sock → relay env m s ≡ ok t → Stays env none s t
  unfolding relay control_send
  relay-Stays m s t v e = elim (Option-cases (controller_of m.target s)) [
    | inl absent ↦ same-Stays env none s t (ok_eq (rw absent at e))
    | inr (c, found) ↦
        returned (Stays env none s) (rw found at e)
          (send_wire-live env c.ws _ s
            (All-find_first _ _ s.sock.controllers v.of_controllers found))
          (emit-Stays env none _ s _ refl (λ spec d away.
            sent_wire-Silent env d spec c.ws (wire message m.source m.target m.payload) spec.ascii.3
              message_silent.0 message_silent.1))
  ]

  proxy_message-Reads :
      (p : ProxyConnection) (m : WireMessage) (s t : State)
      → AllLive s.sock
      → handle_message env p m s ≡ ok t
      → Reads p (some m) s t
  unfolding handle_message
  proxy_message-Reads p m s t v e = elim (Bool-cases (text_eq m.action connect)) [
    | inl a ↦
        returned (Reads p (some m) s) (rw a at e)
          (tell_owned env connect m.target s.sock.controllers _ v.of_controllers)
          (owned-Reads connect p m.target (insert_key m.target) (some m) s (rw a refl))
    | inr a ↦ elim (Bool-cases (text_eq m.action disconnect)) [
      | inl b ↦
          returned (Reads p (some m) s) (rw (a, b) at e)
            (tell_owned env disconnect m.target s.sock.controllers _ v.of_controllers)
            (owned-Reads disconnect p m.target (delete_key m.target) (some m) s (rw (a, b) refl))
      | inr b ↦
          other-Reads p (some m) s t (rw (a, b) refl)
            (elim (Bool-cases (text_eq m.action message)) [
              | inl c ↦
                  let (u, told, rest) =
                    then_inv (Proxy.notify env m.payload s) _ (rw (a, b, c) at e) in
                  subst (Stays env none s) (ok_eq rest) (
                    broadcast-Stays env none s u _ (
                      Remembers-Stays env m.payload s u s.proxy_notified_list
                        (proxy_notify_inv env m.payload s u told)))
              | inr c ↦ elim (Bool-cases (text_eq m.action directmessage)) [
                | inl d ↦ relay-Stays m s t v (rw (a, b, c, d) at e)
                | inr d ↦ same-Stays env none s t (ok_eq (rw (a, b, c, d) at e))
              ]
            ])
    ]
  ]

  pub proxy_reads-Stays :
      (p : ProxyConnection) (text : Text) (s t : State)
      → AllLive s.sock
      → Proxy.handle env p text s ≡ ok t
      → Stays env (some p.peers) s t
        × (t.maps p.peers ≡ owner_change (env.unmarshal text) (s.maps p.peers))
  unfolding Proxy.handle handle_wire
  proxy_reads-Stays p text s t v e = elim (Option-cases (env.unmarshal text)) [
    | inl bad ↦
        other-Reads p (env.unmarshal text) s t (rw bad refl)
          (same-Stays env none s t (ok_eq (rw bad at e)))
    | inr (m, good) ↦
        subst (λ w. Reads p w s t) (sym good) (proxy_message-Reads p m s t v (rw good at e))
  ]
