-- ===== src/Network/Channel/Delivery.antt =====
-- The two machines come into step: whatever their goroutines did, once the frames in flight are read
-- the other machine owns the ids of this machine's peers.
use discovery_self.Base.{ℕ, ◌<◌, List, [], ◌∷◌, ◌++◌, ◌≡◌, All, elem}
use discovery_self.Env.{Env}
use discovery_self.Model.{PeerConnection, ProxyConnection, proxy_read}
use discovery_self.Step.Writes.{IsOther}
use discovery_self.Peer
use discovery_self.Control
use discovery_self.Proxy
use discovery_self.Proxy.Frames.{absorb}
use discovery_self.Network.Link.{IsLink}
use discovery_self.Network.Sync.{peer_ids}
use discovery_self.Network.Channel.{Machines}
use discovery_self.System.{Occurs}
use discovery_self.System.Invariant.{IsSound}

pub cancel {ℓ} : {A : Type ℓ} (xs : List A) {ys zs : List A} → xs ++ ys ≡ xs ++ zs → ys ≡ zs
cancel [] e = e
cancel (x ∷ xs) {ys} {zs} e = cancel xs (tail e)
  where
    tail : x ∷ (xs ++ ys) ≡ x ∷ (xs ++ zs) → xs ++ ys ≡ xs ++ zs
    tail h = cc

-- Both machines are sound, `near` is this one's end of the link, no peer has its connection, the map
-- of `far` is in use, the pump that reads from `far` runs, and what is in flight makes of the map the
-- ids of this machine's peers.
pub record InStep (env : Env) (near far : ProxyConnection) (c : ℕ) (w : Machines) : Type 0 where
  pub one_sound : IsSound w.one
  pub other_sound : IsSound w.other
  pub link : IsLink w.one near c
  pub others : All (λ (p : PeerConnection). IsOther c p.ws) w.one.sock.peers
  pub in_use : far.peers < w.other.next_map
  pub reading : Occurs (proxy_read far) w.other.running
  pub agrees :
      (k : ℕ)
      → elem k (absorb env w.flight (w.other.maps far.peers)) ≡ elem k (peer_ids w.one.sock.peers)
