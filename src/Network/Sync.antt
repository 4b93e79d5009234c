-- ===== src/Network/Sync.antt =====
-- The map `peers` of a proxy connection (proxy.go) against the peers of the machine at its other end,
-- whose frames peer.go and proxy.go write.
use discovery_self.Base.{
  ℕ, List, [], ◌∷◌, ◌++◌, none, Text, ◌≡◌, refl, ap, ◌∙◌, sym, elem, map, ◌&&◌, not, find_first,
  some, drop_first, ◌==◌, arith, append_assoc, append-nil, map-append, ==_refl, All-drop_first,
}
use discovery_self.Env.{Env, IsEnv, connect, disconnect}
use discovery_self.Model.{State, PeerConnection, ProxyConnection, Effect}
use discovery_self.Step.{ok}
use discovery_self.Step.Emits.{IsLive, closing}
use discovery_self.Live.{AllLive, wire}
use discovery_self.Step.Writes.{writes_to-closing, writes_to, writes_to-append}
use discovery_self.Network.Link.{IsLink, news_on_link, quiet_control}
use discovery_self.Peer
use discovery_self.Peer.Membership.{
  news, joined, left, add_connection_lem, remove_connection_lem, closing_control,
  controllers_without,
}
use discovery_self.Proxy
use discovery_self.Proxy.{insert_key, delete_key}
use discovery_self.Proxy.Ownership.{
  owned, handle-connect, handle-disconnect, elem-insert_key, elem-delete_key, elem-append,
}

abbrev pub peer_ids : List PeerConnection → List ℕ
peer_ids = map (λ p. p.id)

-- `far`, a proxy connection of `u`, owns exactly the ids of the peers of `s`.
abbrev pub IsSynced : State → State → ProxyConnection → Type 0
IsSynced s u far = (k : ℕ) → elem k (u.maps far.peers) ≡ elem k (peer_ids s.sock.peers)

absent-ids :
    (i j : ℕ) (ps : List PeerConnection)
    → find_first (λ p. p.id == i) ps ≡ none
    → elem j (peer_ids ps) ≡ (not (i == j) && elem j (peer_ids ps))
absent-ids i j [] h = ground arith
absent-ids i j (p ∷ ps) h = ground (arith, absent-ids i j ps)

pub drop-ids :
    (i j : ℕ) (ps : List PeerConnection)
    → find_first (λ p. p.id == i) (drop_first (λ p. p.id == i) ps) ≡ none
    → elem j (peer_ids (drop_first (λ p. p.id == i) ps)) ≡ (not (i == j) && elem j (peer_ids ps))
drop-ids i j [] h = ground arith
drop-ids i j (p ∷ ps) h = ground (arith, absent-ids i j ps, drop-ids i j ps)

-- Of two sockets with no nil connection and one link: when a peer joins one machine, one frame goes
-- out on the link, and the machine that reads it owns the peer's id for the other from then on: in
-- step before, they are in step after.
pub add_connection-IsSynced :
    (env : Env) (spec : IsEnv env) (s u : State) (peer : PeerConnection)
    (near far : ProxyConnection) (c : ℕ)
    → AllLive s.sock
    → AllLive u.sock
    → IsLink s near c
    → IsSynced s u far
    → (frame : Text) × (es : List Effect) × (t : State) × (v : State) × (Peer.add_connection env
          peer s
        ≡ ok t)
      × (t.out ≡ s.out ++ es)
      × (writes_to c es ≡ frame ∷ [])
      × (Proxy.handle env far frame u ≡ ok v)
      × IsSynced t v far
add_connection-IsSynced env spec s u peer near far c hs hu link sync =
    let (frame, enc, dec) = spec.json (wire connect near.id peer.id []) spec.ascii.1 spec.ascii.0 in
    (
      frame,
      news env connect peer s.sock.controllers s.sock.proxies,
      joined env peer s,
      owned env connect peer.id far (insert_key peer.id) u,
      add_connection_lem env peer s hs,
      refl,
      rw link.listed (
          news_on_link env connect frame peer s.sock.controllers near c link.before link.after
            link.over link.writes link.alone_before link.alone_after link.alone_controllers enc),
      handle-connect env far frame [] near.id peer.id u hu.of_controllers dec,
      λ k. rw (==_refl far.peers) (
          elem-insert_key k peer.id (u.maps far.peers)
          ∙ rw
              (
                map-append (λ (p : PeerConnection). p.id) s.sock.peers (peer ∷ []),
                elem-append k (peer_ids s.sock.peers) (peer.id ∷ []),
                sync k,
              )
              (ground arith)),
    )

-- What is written when a peer leaves, and that one frame of it goes over the link.
abbrev pub farewell : Env → PeerConnection → State → List Effect
farewell env peer s =
    (closing_control (find_first (λ c. c.id == peer.id) s.sock.controllers)
      ++ news env disconnect peer (controllers_without peer.id s.sock.controllers) s.sock.proxies)
    ++ closing peer.ws

pub left_out :
    (env : Env) (peer : PeerConnection) (s : State)
    → (left env peer s).out ≡ s.out ++ farewell env peer s
left_out env peer s =
    let shut = closing_control (find_first (λ c. c.id == peer.id) s.sock.controllers) in
    let told =
      news env disconnect peer (controllers_without peer.id s.sock.controllers) s.sock.proxies in
    ap (λ o. o ++ closing peer.ws) (append_assoc s.out shut told)
    ∙ append_assoc s.out (shut ++ told) (closing peer.ws)

pub left_on_link :
    (env : Env) (frame : Text) (peer : PeerConnection) (near : ProxyConnection) (c : ℕ) (s : State)
    → IsLink s near c
    → env.marshal (wire disconnect near.id peer.id []) ≡ some frame
    → writes_to c (farewell env peer s) ≡ frame ∷ []
left_on_link env frame peer near c s link enc =
    let cs = controllers_without peer.id s.sock.controllers in
    let shut = closing_control (find_first (λ c. c.id == peer.id) s.sock.controllers) in
    let told = news env disconnect peer cs s.sock.proxies in
    writes_to-append c (shut ++ told) (closing peer.ws)
    ∙ rw (writes_to-closing c peer.ws, append-nil, writes_to-append c shut told, quiet_control c _)
        (rw link.listed (
          news_on_link env disconnect frame peer cs near c link.before link.after link.over
            link.writes link.alone_before link.alone_after
            (All-drop_first _ _ s.sock.controllers link.alone_controllers) enc))

-- Of two sockets with no nil connection and one link: when a peer leaves one machine, whose id no
-- other peer there has, one frame goes out on the link,
-- and the machine that reads it no longer owns the id: they stay in step.
pub remove_connection-IsSynced :
    (env : Env) (spec : IsEnv env) (s u : State) (peer : PeerConnection)
    (near far : ProxyConnection) (c : ℕ)
    → AllLive s.sock
    → AllLive u.sock
    → IsLive peer.ws
    → IsLink s near c
    → find_first (λ p. p.id == peer.id) (drop_first (λ p. p.id == peer.id) s.sock.peers) ≡ none
    → IsSynced s u far
    → (frame : Text) × (es : List Effect) × (t : State) × (v : State) × (Peer.remove_connection env
          peer s
        ≡ ok t)
      × (t.out ≡ s.out ++ es)
      × (writes_to c es ≡ frame ∷ [])
      × (Proxy.handle env far frame u ≡ ok v)
      × IsSynced t v far
remove_connection-IsSynced env spec s u peer near far c hs hu live link alone sync =
    let (frame, enc, dec) =
      spec.json (wire disconnect near.id peer.id []) spec.ascii.2 spec.ascii.0 in
    (
      frame,
      farewell env peer s,
      left env peer s,
      owned env disconnect peer.id far (delete_key peer.id) u,
      remove_connection_lem env peer s hs live,
      left_out env peer s,
      left_on_link env frame peer near c s link enc,
      handle-disconnect env far frame [] near.id peer.id u hu.of_controllers dec,
      λ k. rw (==_refl far.peers) (
          elem-delete_key k peer.id (u.maps far.peers)
          ∙ rw (sync k) (sym (drop-ids peer.id k s.sock.peers alone))),
    )
