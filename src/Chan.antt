-- ===== src/Chan.antt =====
-- Go's buffered channel, as `make(chan *Message, 512)` gives it (socket.go): a buffer of bounded
-- size, and the values of the senders that are parked because it is full, oldest first. A
-- receive from a full channel hands the oldest parked value over to the buffer.
pub mod Fifo
use discovery_self.Base.{
  ℕ, suc, ◌+◌, ◌≤◌, ◌≡◌, refl, List, [], ◌∷◌, ◌++◌, Option, none, some, arith, ltb, length,
  length-append, ◌⊎◌, inl, inr, if◌then◌else◌, append_assoc, append-nil, sym,
}

pub record Chan {ℓ} (A : Type ℓ) : Type ℓ where
  pub capacity : ℕ
  pub buffer : List A
  pub parked : List A

module _ {ℓ} {A : Type ℓ} where
  unfoldable pub make : ℕ → Chan A
  make n = record { capacity = n; buffer = []; parked = [] }

  -- `ch <- a`: into the buffer if there is room, and else the sender parks.
  unfoldable pub send : Chan A → A → Chan A
  send c a =
      if ltb (length c.buffer) c.capacity
      then record c { buffer = c.buffer ++ a ∷ [] }
      else record c { parked = c.parked ++ a ∷ [] }

  unpark : Chan A → List A → List A → Chan A
  unpark c rest [] = record c { buffer = rest; parked = [] }
  unpark c rest (w ∷ ws) = record c { buffer = rest ++ w ∷ []; parked = ws }

  take_front : Chan A → List A → Option (A × Chan A)
  take_front c [] = none
  take_front c (a ∷ rest) = some (a, unpark c rest c.parked)

  -- `<-ch`: `none` where the receiver has to wait.
  unfoldable pub receive : Chan A → Option (A × Chan A)
  unfolding take_front unpark
  receive c = take_front c c.buffer

  -- All that was sent and not yet received, oldest first.
  abbrev pub queued : Chan A → List A
  queued c = c.buffer ++ c.parked

  -- The buffer holds at most `capacity` values, and a sender is parked only at a full buffer.
  pub record IsChan (c : Chan A) : Type ℓ where
    pub bounded : length c.buffer ≤ c.capacity
    pub full : (c.parked ≡ []) ⊎ (length c.buffer ≡ c.capacity)
