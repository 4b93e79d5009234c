-- ===== src/Socket/Dispatch.antt =====
-- What the dispatcher of socket.go delivers.
use discovery_self.Base.{
  ℕ, suc, ◌<◌, List, [], ◌++◌, none, some, ◌≡◌, refl, ap, ◌∙◌, flat_map, if◌then◌else◌, arith,
  Bool-cases, Option-cases, inl, inr, sym, append_assoc, append-nil, subst, length, nil_of_length,
  zero,
}
use discovery_self.Chan
use discovery_self.Chan.{queued, IsChan}
use discovery_self.Chan.Fifo.{queued-receive, receive-none, receive-IsChan, capacity-receive}
use discovery_self.Env.{Env}
use discovery_self.Model.{State, NamedWebSocket, Message, Effect}
use discovery_self.Step.{ok, emit}
use discovery_self.Step.Emits.{emit-nil}
use discovery_self.Live.{AllLive, delivered, forwarded, local_writes, remote_writes}
use discovery_self.Socket.{local_broadcast, remote_broadcast, dispatch, message_dispatcher}

-- The writes that one message is delivered by: to the peers of another id than its source, and,
-- unless a proxy sent it, to the writeable proxies of another id.
abbrev pub delivery : Env → NamedWebSocket → Message → List Effect
delivery env sock m =
    flat_map (delivered m) sock.peers
    ++ (if m.from_proxy then [] else flat_map (forwarded env m) sock.proxies)

abbrev pub dispatched : Env → Message → Chan.Chan Message → State → State
dispatched env m rest s = record s {
  sock = record s.sock { broadcast_buffer = rest };
  out = s.out ++ delivery env s.sock m;
}

remote_broadcast_lem :
    (env : Env) (m : Message) (s : State)
    → AllLive s.sock
    → remote_broadcast env m s
      ≡ ok (emit (if m.from_proxy then [] else flat_map (forwarded env m) s.sock.proxies) s)
unfolding remote_broadcast
remote_broadcast_lem env m s h = elim (Bool-cases m.from_proxy) [
  | inl relayed ↦ simp relayed (ap ok (sym (emit-nil s)))
  | inr own ↦ simp own (remote_writes env m s.sock.proxies s h.of_proxies)
]

-- A round of the dispatcher on a socket with no nil connection takes the oldest message off the
-- queue and writes its delivery, and changes nothing else.
pub dispatch_lem :
    (env : Env) (s : State) (m : Message) (rest : Chan.Chan Message)
    → AllLive s.sock
    → Chan.receive s.sock.broadcast_buffer ≡ some (m, rest)
    → dispatch env s ≡ ok (dispatched env m rest s)
unfolding dispatch local_broadcast
dispatch_lem env s m rest h e =
    rw (e, dispatch)
      (rw
        (local_writes env m s.sock.peers
          (record s { sock = record s.sock { broadcast_buffer = rest } }) h.of_peers)
        (rw
          (remote_broadcast_lem env m
            (emit (flat_map (delivered m) s.sock.peers)
              (record s { sock = record s.sock { broadcast_buffer = rest } }))
            (record {
              of_controllers = h.of_controllers;
              of_peers = h.of_peers;
              of_proxies = h.of_proxies;
            }))
          (ap (λ o. ok (record (dispatched env m rest s) { out = o })) (append_assoc s.out _ _))))

-- On a socket with no nil connection and a well-formed channel with room for a message, as many rounds
-- as messages are queued deliver them all, in the order in which they were sent,
-- and leave nothing queued.
pub message_dispatcher_drains :
    (env : Env) (n : ℕ) (s : State)
    → AllLive s.sock
    → IsChan s.sock.broadcast_buffer
    → 0 < s.sock.broadcast_buffer.capacity
    → length (queued s.sock.broadcast_buffer) ≡ n
    → (t : State) × (message_dispatcher env n s ≡ ok t)
      × (queued t.sock.broadcast_buffer ≡ [])
      × (t.out ≡ s.out ++ flat_map (delivery env s.sock) (queued s.sock.broadcast_buffer))
unfolding message_dispatcher
message_dispatcher_drains env zero s live h pos len =
    let empty = nil_of_length (queued s.sock.broadcast_buffer) len in
    (s, refl, empty, rw (empty, append-nil))
message_dispatcher_drains env (suc n) s live h pos len =
    elim (Option-cases (Chan.receive s.sock.broadcast_buffer)) [
      | inl e ↦ absurd (omega (arith, len, ap length (receive-none _ h pos e)))
      | inr ((m, rest), e) ↦
          let q = queued-receive s.sock.broadcast_buffer rest e in
          let (t, run, empty, out) =
            message_dispatcher_drains env n (dispatched env m rest s)
              (record {
                of_controllers = live.of_controllers;
                of_peers = live.of_peers;
                of_proxies = live.of_proxies;
              })
              (receive-IsChan _ rest e h) (subst (λ c. 0 < c) (sym (capacity-receive _ rest e)) pos)
              (omega (arith, len, ap length q)) in
          (
            t,
            rw (dispatch_lem env s m rest live e) run,
            empty,
            rw q (out ∙ append_assoc s.out (delivery env s.sock m) _),
          )
    ]

pub dispatch_idle :
    (env : Env) (s : State) → Chan.receive s.sock.broadcast_buffer ≡ none → dispatch env s ≡ ok s
unfolding dispatch
dispatch_idle env s e = rw e refl
