-- ===== src/Network/Link.antt =====
-- What peer.go writes on the one connection that links two machines.
use discovery_self.Base.{
  ℕ, List, [], ◌∷◌, ◌++◌, Option, none, some, Text, ◌≡◌, refl, ◌∙◌, true, All, flat_map, ◌==◌,
  append-nil,
}
use discovery_self.Env.{Env}
use discovery_self.Model.{State, PeerConnection, ControlConnection, ProxyConnection}
use discovery_self.Live.{wire, told_controller, told_proxy}
use discovery_self.Step.Writes.{
  writes_to-if, writes_to-wire_other, writes_to-closing, writes_to, writes_to-append, IsOther,
  writes_to-sent_self, flat_map-append,
}
use discovery_self.Peer.Membership.{news, closing_control}

-- `near` is the one connection of `s` over `c`, among the proxies and the controllers.
pub record IsLink (s : State) (near : ProxyConnection) (c : ℕ) : Type 0 where
  pub before : List ProxyConnection
  pub after : List ProxyConnection
  pub listed : s.sock.proxies ≡ before ++ near ∷ after
  pub over : near.ws ≡ some c
  pub writes : near.writeable ≡ true
  pub alone_before : All (λ (p : ProxyConnection). IsOther c p.ws) before
  pub alone_after : All (λ (p : ProxyConnection). IsOther c p.ws) after
  pub alone_controllers : All (λ (p : ControlConnection). IsOther c p.ws) s.sock.controllers

-- The link, where neither the proxies nor the controllers change.
pub same-IsLink :
    (s t : State) (near : ProxyConnection) (c : ℕ)
    → t.sock.proxies ≡ s.sock.proxies
    → All (λ (x : ControlConnection). IsOther c x.ws) t.sock.controllers
    → IsLink s near c
    → IsLink t near c
same-IsLink s t near c e h link = record {
  before = link.before;
  after = link.after;
  listed = e ∙ link.listed;
  over = link.over;
  writes = link.writes;
  alone_before = link.alone_before;
  alone_after = link.alone_after;
  alone_controllers = h;
}

quiet_controllers :
    (env : Env) (c : ℕ) (action : Text) (peer : PeerConnection) (cs : List ControlConnection)
    → All (λ (p : ControlConnection). IsOther c p.ws) cs
    → writes_to c (flat_map (told_controller env action peer) cs) ≡ []
quiet_controllers env c action peer [] h = refl
quiet_controllers env c action peer (x ∷ cs) h =
    writes_to-append c (told_controller env action peer x) _
    ∙ rw
        (writes_to-if c (x.id == peer.id) [] _ refl
          (writes_to-wire_other env c (wire action x.id peer.id []) x.ws h.0))
        (quiet_controllers env c action peer cs h.1)

quiet_proxies :
    (env : Env) (c : ℕ) (action : Text) (peer : PeerConnection) (ps : List ProxyConnection)
    → All (λ (p : ProxyConnection). IsOther c p.ws) ps
    → writes_to c (flat_map (told_proxy env action peer) ps) ≡ []
quiet_proxies env c action peer [] h = refl
quiet_proxies env c action peer (x ∷ ps) h =
    writes_to-append c (told_proxy env action peer x) _
    ∙ rw
        (writes_to-if c x.writeable _ []
          (writes_to-wire_other env c (wire action x.id peer.id []) x.ws h.0) refl)
        (quiet_proxies env c action peer ps h.1)

pub quiet_control : (c : ℕ) (o : Option ControlConnection) → writes_to c (closing_control o) ≡ []
quiet_control c none = refl
quiet_control c (some x) = writes_to-closing c x.ws

-- The news of a peer is one frame on the link.
pub news_on_link :
    (env : Env) (action frame : Text) (peer : PeerConnection) (cs : List ControlConnection)
    (near : ProxyConnection) (c : ℕ) (before after : List ProxyConnection)
    → near.ws ≡ some c
    → near.writeable ≡ true
    → All (λ (p : ProxyConnection). IsOther c p.ws) before
    → All (λ (p : ProxyConnection). IsOther c p.ws) after
    → All (λ (p : ControlConnection). IsOther c p.ws) cs
    → env.marshal (wire action near.id peer.id []) ≡ some frame
    → writes_to c (news env action peer cs (before ++ near ∷ after)) ≡ frame ∷ []
news_on_link env action frame peer cs near c before after w on hb ha hc enc =
    writes_to-append c (flat_map (told_controller env action peer) cs) _
    ∙ rw
        (
          quiet_controllers env c action peer cs hc,
          flat_map-append (told_proxy env action peer) before (near ∷ after),
          writes_to-append c (flat_map (told_proxy env action peer) before) _,
          quiet_proxies env c action peer before hb,
          writes_to-append c (told_proxy env action peer near) _,
          quiet_proxies env c action peer after ha,
          on,
          w,
          enc,
          append-nil,
        )
        (writes_to-sent_self c frame)
