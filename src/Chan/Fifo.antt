-- ===== src/Chan/Fifo.antt =====
-- The order in which the buffered channel of socket.go hands values on, parked senders included.
use discovery_self.Base.{
  ℕ, suc, ◌<◌, ◌≡◌, refl, List, [], ◌∷◌, ◌++◌, none, some, arith, length, inl, inr, length-append,
  append_assoc, append-nil, sym, ltb, ltb→lt, Bool-cases, subst, ap, true, false, ◌⊎◌, ◌≤◌,
}
use discovery_self.Chan.{Chan, make, send, receive, queued, IsChan, unpark, take_front}

module _ {ℓ} {A : Type ℓ} where
  pub make-IsChan : (n : ℕ) → IsChan (make {A = A} n)
  unfolding make
  make-IsChan n = record { bounded = omega arith; full = inl refl }

  pub send-IsChan : (c : Chan A) (a : A) → IsChan c → IsChan (send c a)
  unfolding send
  send-IsChan c a h = elim (Bool-cases (ltb (length c.buffer) c.capacity)) [
    | inl room ↦ rw room (record {
      bounded = grows (ltb→lt _ _ room);
      full = inl (no_parked h.full (ltb→lt _ _ room));
    })
    | inr full ↦ rw full (record { bounded = h.bounded; full = inr (at_cap full h.bounded) })
  ]
    where
      grows : length c.buffer < c.capacity → length (c.buffer ++ a ∷ []) ≤ c.capacity
      grows room = omega (arith, length-append {ℓ} c.buffer (a ∷ []))

      no_parked :
          (c.parked ≡ []) ⊎ (length c.buffer ≡ c.capacity)
          → length c.buffer < c.capacity
          → c.parked ≡ []
      no_parked (inl e) p = e
      no_parked (inr e) p = absurd (omega arith)

      at_cap :
          ltb (length c.buffer) c.capacity ≡ false
          → length c.buffer ≤ c.capacity
          → length c.buffer ≡ c.capacity
      at_cap p q = ground arith

  unpark-IsChan :
      (c : Chan A) (rest ws : List A) → suc (length rest) ≡ c.capacity → IsChan (unpark c rest ws)
  unfolding unpark
  unpark-IsChan c rest [] h = record { bounded = omega arith; full = inl refl }
  unpark-IsChan c rest (w ∷ ws) h = ground (arith, length-append {ℓ} rest (w ∷ []))

  receive_inv :
      (c d : Chan A) (bs : List A) {a : A}
      → take_front c bs ≡ some (a, d)
      → (rest : List A) × (bs ≡ a ∷ rest) × (d ≡ unpark c rest c.parked)
  unfolding take_front
  receive_inv c d [] e = cc
  receive_inv c d (b ∷ bs) e = (bs, ground arith, ground arith)

  unpark-queued : (c : Chan A) (rest ws : List A) → queued (unpark c rest ws) ≡ rest ++ ws
  unfolding unpark
  unpark-queued c rest [] = refl
  unpark-queued c rest (w ∷ ws) = append_assoc rest (w ∷ []) ws

  unpark-capacity : (c : Chan A) (rest ws : List A) → (unpark c rest ws).capacity ≡ c.capacity
  unfolding unpark
  unpark-capacity c rest [] = refl
  unpark-capacity c rest (w ∷ ws) = refl

  drained-IsChan :
      (c : Chan A) (rest ws : List A)
      → suc (length rest) ≤ c.capacity
      → (ws ≡ []) ⊎ (suc (length rest) ≡ c.capacity)
      → IsChan (unpark c rest ws)
  unfolding unpark
  drained-IsChan c rest [] h k = record { bounded = omega arith; full = inl refl }
  drained-IsChan c rest (w ∷ ws) h k = ground (arith, length-append {ℓ} rest (w ∷ []))

  pub receive-IsChan : (c d : Chan A) {a : A} → receive c ≡ some (a, d) → IsChan c → IsChan d
  unfolding receive
  receive-IsChan c d {a} e h =
      let (rest, eb, ed) = receive_inv c d c.buffer e in
      rw ed (
        drained-IsChan c rest c.parked (subst (λ b. length b ≤ c.capacity) eb h.bounded)
          (subst (λ b. (c.parked ≡ []) ⊎ (length b ≡ c.capacity)) eb h.full))

  pub capacity-send : (c : Chan A) (a : A) → (send c a).capacity ≡ c.capacity
  unfolding send
  capacity-send c a = ground arith

  pub capacity-receive : (c d : Chan A) {a : A} → receive c ≡ some (a, d) → d.capacity ≡ c.capacity
  unfolding receive
  capacity-receive c d e =
      let (rest, eb, ed) = receive_inv c d c.buffer e in rw ed (unpark-capacity c rest c.parked)

  -- A send puts its value behind all that is queued, whether or not it parks.
  pub queued-send : (c : Chan A) (a : A) → IsChan c → queued (send c a) ≡ queued c ++ a ∷ []
  unfolding send
  queued-send c a h = elim (Bool-cases (ltb (length c.buffer) c.capacity)) [
    | inl room ↦ rw room (room_lem (no_parked room))
    | inr full ↦ rw full (sym (append_assoc c.buffer c.parked (a ∷ [])))
  ]
    where
      no_parked : ltb (length c.buffer) c.capacity ≡ true → c.parked ≡ []
      no_parked room = ground (arith, h.full)

      room_lem : c.parked ≡ [] → (c.buffer ++ a ∷ []) ++ c.parked ≡ (c.buffer ++ c.parked) ++ a ∷ []
      room_lem e = rw (e, append-nil, append-nil)

  -- A receive takes the oldest value, and leaves the others in their order.
  pub queued-receive : (c d : Chan A) {a : A} → receive c ≡ some (a, d) → queued c ≡ a ∷ queued d
  unfolding receive
  queued-receive c d {a} e =
      let (rest, eb, ed) = receive_inv c d c.buffer e in
      rw (ed, unpark-queued c rest c.parked) (ap (λ b. b ++ c.parked) eb)

  none_inv : (c : Chan A) (bs : List A) → take_front c bs ≡ none → bs ≡ []
  unfolding take_front
  none_inv c [] e = refl
  none_inv c (b ∷ bs) e = cc

  -- A receiver has to wait only if nothing is queued.
  pub receive-none : (c : Chan A) → IsChan c → 0 < c.capacity → receive c ≡ none → queued c ≡ []
  unfolding receive
  receive-none c h pos e = elim h.full [
    | inl idle ↦ rw (none_inv c c.buffer e, idle)
    | inr full ↦ absurd (empty_full (none_inv c c.buffer e) full)
  ]
    where
      empty_full : c.buffer ≡ [] → length c.buffer ≡ c.capacity → ⊥
      empty_full b full = omega (arith, ap length b)
