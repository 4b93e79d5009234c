-- ===== src/Network/Conversation.antt =====
-- A text from a peer of one machine to a peer of the other (peer.go, socket.go and proxy.go on both).
use discovery_self.Base.{
  ℕ, ◌<◌, List, [], ◌∷◌, ◌++◌, some, Text, ◌≡◌, ◌≢◌, refl, ap, sym, ◌∙◌, All, true, false, ◌==◌,
  ==_iff, Bool-cases, inl, inr, ◌⊎◌, subst, arith, ltb,
}
use discovery_self.Chan
use discovery_self.Chan.{Chan, queued}
use discovery_self.Env.{Env, IsEnv, message}
use discovery_self.Model.{State, NamedWebSocket, PeerConnection, ProxyConnection, Message, Effect}
use discovery_self.Sends.{IsFit}
use discovery_self.Step.{ok}
use discovery_self.Step.Inversion.{ok_eq, then_inv}
use discovery_self.Step.Writes.{writes_to, IsOther}
use discovery_self.Live.{AllLive, wire}
use discovery_self.Peer
use discovery_self.Peer.Notify.{handle-Returns_iff, Survives, is_news}
use discovery_self.Proxy
use discovery_self.Proxy.Notify.{Remembers, peer_notify_inv}
use discovery_self.Socket.{dispatch}
use discovery_self.Socket.Once.{dispatch_once}
use discovery_self.Network.Broadcast.{frame_crosses_once, relayed}
use discovery_self.Network.Handshake.{reads, read_single, text_single}
use discovery_self.Network.Link.{IsLink, same-IsLink}
use discovery_self.System.Invariant.{IsSound}

-- What is sent on a channel on which nothing waits is received next.
receive-send :
    (ch : Chan Message) (m : Message)
    → queued ch ≡ []
    → 0 < ch.capacity
    → Chan.receive (Chan.send ch m) ≡ some (m, ch)
unfolding Chan.receive Chan.send
receive-send ch m e pos = parts ch.buffer ch.parked e
  where
    parts :
        (xs ys : List Message)
        → xs ++ ys ≡ []
        → Chan.receive (Chan.send (record { capacity = ch.capacity; buffer = xs; parked = ys }) m)
          ≡ some (m, record { capacity = ch.capacity; buffer = xs; parked = ys })
    parts [] [] h = rw room refl
      where
        room : ltb 0 ch.capacity ≡ true
        room = ground (arith, pos)
    parts [] (y ∷ ys) h = cc
    parts (x ∷ xs) ys h = cc

-- What a peer's text is queued as.
abbrev spoken : PeerConnection → Text → Message
spoken p text = record { source = p.id; target = 0; payload = text; from_proxy = false }

-- The socket after a text of a peer.
abbrev with_queued : Message → NamedWebSocket → NamedWebSocket
with_queued m sock = record sock { broadcast_buffer = Chan.send sock.broadcast_buffer m }

Remembers-sock :
    (text : Text) (s t : State) (seen : List Text) → Remembers text s t seen → t.sock ≡ s.sock
Remembers-sock text s t seen (inl (e, old)) = ap (λ (x : State). x.sock) e
Remembers-sock text s t seen (inr (es, quiet, e, news)) = ap (λ (x : State). x.sock) e

handle-sock :
    (env : Env) (p : PeerConnection) (text : Text) (s t : State)
    → Peer.handle env p text s ≡ ok t
    → t.sock ≡ with_queued (spoken p text) s.sock
unfolding Peer.handle
handle-sock env p text s t e =
    let (u, told, rest) = then_inv (Peer.notify env p text s) _ e in
    ap (λ (x : State). x.sock) (sym (ok_eq rest))
    ∙ ap (with_queued (spoken p text))
        (Remembers-sock text s u s.peer_notified_list (peer_notify_inv env p text s u told))

AllLive-with_queued :
    (m : Message) (sock : NamedWebSocket) → AllLive sock → AllLive (with_queued m sock)
AllLive-with_queued m sock v = record {
  of_controllers = v.of_controllers;
  of_peers = v.of_peers;
  of_proxies = v.of_proxies;
}

-- Two machines with sound sockets on which nothing waits to be broadcast share a link, whose near
-- end has no other connection. A peer of the one, whose id is not the link's, sends a text of valid
-- UTF-8 which is no news with a URL, or whose notification does not fail; the path of the icon is
-- known. The text and the frame that carries it (with the peer's id as its source) are both within the
-- read limit of 4096 bytes. Then the peer's read loop takes the text and returns, the next round of
-- the dispatcher writes just that frame to the link, the read loop of the other machine takes the
-- frame and returns, and the next round of its dispatcher writes the text, and nothing else, once to
-- a given peer there that has another id and a connection of its own.
pub text_heard_once :
    (env : Env) (spec : IsEnv env) (s u : State) (speaker : PeerConnection) (text path : Text)
    (near far : ProxyConnection) (c : ℕ) (listener : PeerConnection) (d : ℕ)
    (before after : List PeerConnection) (frame : Text)
    → IsSound s
    → IsSound u
    → queued s.sock.broadcast_buffer ≡ []
    → queued u.sock.broadcast_buffer ≡ []
    → IsLink s near c
    → All (λ (p : PeerConnection). IsOther c p.ws) s.sock.peers
    → near.id ≢ speaker.id
    → listener.id ≢ speaker.id
    → env.valid_utf8 text ≡ true
    → IsFit text
    → env.marshal (wire message speaker.id 0 text) ≡ some frame
    → IsFit frame
    → env.icon_path ≡ some path
    → (is_news text s.peer_notified_list ≡ false) ⊎ Survives env speaker s.sock.controllers
    → u.sock.peers ≡ before ++ listener ∷ after
    → listener.ws ≡ some d
    → All (λ (q : PeerConnection). IsOther d q.ws) before
    → All (λ (q : PeerConnection). IsOther d q.ws) after
    → All (λ (q : ProxyConnection). IsOther d q.ws) u.sock.proxies
    → (s1 : State) × (s2 : State) × (es : List Effect) × (v : State) × (w : State) × (fs : List
        Effect)
      × (Peer.read_loop env speaker (reads (text ∷ [])) s ≡ ok s1)
      × (dispatch env s1 ≡ ok s2)
      × (s2.out ≡ s1.out ++ es)
      × (writes_to c es ≡ frame ∷ [])
      × (Proxy.read_loop env far (reads (frame ∷ [])) u ≡ ok v)
      × (dispatch env v ≡ ok w)
      × (w.out ≡ v.out ++ fs)
      × (writes_to d fs ≡ text ∷ [])
text_heard_once env spec s u speaker text path near far c listener d before after frame sound_s
      sound_u idle_s idle_u link quiet not_link not_own utf fit enc fits icon fine listed own hb ha
      hp =
    let m = spoken speaker text in
    let (s1, spoke) = (handle-Returns_iff env speaker text s).1 fine in
    let same1 : s1.sock ≡ with_queued m s.sock = handle-sock env speaker text s s1 spoke in
    let taken1 : Chan.receive s1.sock.broadcast_buffer ≡ some (m, s.sock.broadcast_buffer) =
      ap (λ (k : NamedWebSocket). Chan.receive k.broadcast_buffer) same1
      ∙ receive-send s.sock.broadcast_buffer m idle_s (room s sound_s) in
    let live1 = subst AllLive (sym same1) (AllLive-with_queued m s.sock sound_s.live) in
    let link1 =
      same-IsLink s s1 near c (ap (λ (k : NamedWebSocket). k.proxies) same1)
        (rw same1 link.alone_controllers) link in
    let (frame', es, s2, v, ran, out, crossed, read, same2, silent, enc') =
      frame_crosses_once env spec s1 u m s.sock.broadcast_buffer near far c path live1 taken1 link1
        (rw same1 quiet) not_link refl utf icon in
    let taken2 : Chan.receive v.sock.broadcast_buffer ≡ some (relayed m, u.sock.broadcast_buffer) =
      ap (λ (k : NamedWebSocket). Chan.receive k.broadcast_buffer) same2
      ∙ receive-send u.sock.broadcast_buffer (relayed m) idle_u (room u sound_u) in
    let (w, fs, ran2, out2, heard) =
      dispatch_once env v (relayed m) u.sock.broadcast_buffer listener d before after
        (subst AllLive (sym same2) (AllLive-with_queued (relayed m) u.sock sound_u.live)) taken2
        (ap (λ (k : NamedWebSocket). k.peers) same2 ∙ listed) own hb ha (rw same2 hp) in
    let one : frame' ≡ frame = some_eq (sym enc' ∙ enc) in
    (
      s1,
      s2,
      es,
      v,
      w,
      fs,
      text_single env speaker text s s1 fit spoke,
      ran,
      out,
      crossed ∙ ap (λ f. f ∷ []) one,
      read_single env far frame u v fits (subst (λ f. Proxy.handle env far f u ≡ ok v) one read),
      ran2,
      out2,
      heard ∙ rw other refl,
    )
  where
    some_eq : {a b : Text} → some a ≡ some b → a ≡ b
    some_eq h = cc

    room : (x : State) → IsSound x → 0 < x.sock.broadcast_buffer.capacity
    room x h = rw h.capacity (omega arith)

    other : (listener.id == speaker.id) ≡ false
    other = elim (Bool-cases (listener.id == speaker.id)) [
      | inl same ↦ absurd (not_own ((==_iff listener.id speaker.id).0 same))
      | inr apart ↦ apart
    ]
