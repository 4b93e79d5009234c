-- ===== src/Network/Channel/Near.antt =====
-- What the goroutines of one machine write on its link, against the peers that it has.
use discovery_self.Base.{
  ℕ, List, [], ◌∷◌, ◌++◌, Option, none, some, Text, text_eq, ◌≡◌, refl, sym, ◌∙◌, All, All-append,
  All-drop_first, ◌==◌, find_first, drop_first, elem, map-append, arith, subst,
}
use discovery_self.Env.{Env, IsEnv, WireMessage, connect, disconnect}
use discovery_self.Model.{State, PeerConnection, ControlConnection, ProxyConnection, Effect, Pump}
use discovery_self.Step.Writes.{writes_to, IsOther}
use discovery_self.Live.{wire}
use discovery_self.Peer
use discovery_self.Proxy.{insert_key, delete_key}
use discovery_self.Proxy.Frames.{owner_change, absorb, Silent}
use discovery_self.Proxy.Ownership.{elem-append, elem-insert_key, elem-delete_key}
use discovery_self.Network.Link.{IsLink, same-IsLink, news_on_link}
use discovery_self.Network.Sync.{peer_ids, drop-ids, farewell, left_out, left_on_link}
use discovery_self.System.Stays.{Stays}

-- A step that keeps the link, and whose frames on it, read, make of the ids of the peers before it
-- those after it.
pub record Follows (env : Env) (near : ProxyConnection) (c : ℕ) (s t : State) : Type 0 where
  pub es : List Effect
  pub written : t.out ≡ s.out ++ es
  pub link : IsLink t near c
  pub others : All (λ (p : PeerConnection). IsOther c p.ws) t.sock.peers
  pub agrees :
      (ks : List ℕ)
      → ((k : ℕ) → elem k ks ≡ elem k (peer_ids s.sock.peers))
      → (k : ℕ) → elem k (absorb env (writes_to c es) ks) ≡ elem k (peer_ids t.sock.peers)

-- Silent effects, with the same peers.
pub Silent-agrees :
    (env : Env) (c : ℕ) (es : List Effect) (s t : State)
    → Silent env c es
    → t.sock.peers ≡ s.sock.peers
    → (ks : List ℕ) → ((k : ℕ) → elem k ks ≡ elem k (peer_ids s.sock.peers))
    → (k : ℕ) → elem k (absorb env (writes_to c es) ks) ≡ elem k (peer_ids t.sock.peers)
Silent-agrees env c es s t h same ks agree k = rw (h ks, same) (agree k)

pub on_connect :
    (env : Env) (frame : Text) (w : WireMessage) (ks : List ℕ)
    → env.unmarshal frame ≡ some w
    → w.action ≡ connect
    → owner_change (env.unmarshal frame) ks ≡ insert_key w.target ks
unfolding text_eq
on_connect env frame w ks dec act = rw (dec, act) refl

on_disconnect :
    (env : Env) (frame : Text) (w : WireMessage) (ks : List ℕ)
    → env.unmarshal frame ≡ some w
    → w.action ≡ disconnect
    → owner_change (env.unmarshal frame) ks ≡ delete_key w.target ks
unfolding text_eq
on_disconnect env frame w ks dec act = rw (dec, act) refl

module _ (env : Env) (spec : IsEnv env) (near : ProxyConnection) (c : ℕ) (s : State)
    (link : IsLink s near c)
    (others : All (λ (p : PeerConnection). IsOther c p.ws) s.sock.peers) where
  pub Stays-Follows : (r : Option ℕ) (t : State) → Stays env r s t → Follows env near c s t
  Stays-Follows r t v = record {
    es = v.es;
    written = v.written;
    link =
        same-IsLink s t near c v.proxies
          (subst (All (λ (x : ControlConnection). IsOther c x.ws)) (sym v.controllers)
            link.alone_controllers)
          link;
    others = subst (All (λ (p : PeerConnection). IsOther c p.ws)) (sym v.peers) others;
    agrees =
        Silent-agrees env c v.es s t
          (v.silent spec c (record { of_controllers = link.alone_controllers; of_peers = others }))
          v.peers;
  }

  pub peer_joins-Follows :
      (p : PeerConnection) → IsOther c p.ws → Follows env near c s (Peer.Membership.joined env p s)
  peer_joins-Follows p apart =
      let (frame, enc, dec) = spec.json (wire connect near.id p.id []) spec.ascii.1 spec.ascii.0 in
      let one : writes_to c (Peer.Membership.news env connect p s.sock.controllers s.sock.proxies)
          ≡ frame ∷ [] =
        rw link.listed (
          news_on_link env connect frame p s.sock.controllers near c link.before link.after
            link.over link.writes link.alone_before link.alone_after link.alone_controllers enc) in
      record {
        es = Peer.Membership.news env connect p s.sock.controllers s.sock.proxies;
        written = refl;
        link =
            same-IsLink s (Peer.Membership.joined env p s) near c refl link.alone_controllers link;
        others =
            All-append (λ (q : PeerConnection). IsOther c q.ws) s.sock.peers (p ∷ []) others
              (apart, tt);
        agrees = λ ks agree k.
            rw (one, on_connect env frame (wire connect near.id p.id []) ks dec refl)
              (elem-insert_key k p.id ks
                ∙ rw
                    (
                      map-append (λ (q : PeerConnection). q.id) s.sock.peers (p ∷ []),
                      elem-append k (peer_ids s.sock.peers) (p.id ∷ []),
                      agree k,
                    )
                    (ground arith));
      }

  pub peer_ends-Follows :
      (p : PeerConnection) (rs : List Pump)
      → find_first
          (λ (q : PeerConnection). q.id == p.id)
          (drop_first (λ (q : PeerConnection). q.id == p.id) s.sock.peers)
        ≡ none
      → Follows env near c s (Peer.Membership.left env p (record s { running = rs }))
  peer_ends-Follows p rs alone =
      let (frame, enc, dec) =
        spec.json (wire disconnect near.id p.id []) spec.ascii.2 spec.ascii.0 in
      record {
        es = farewell env p s;
        written = left_out env p (record s { running = rs });
        link =
            same-IsLink s (Peer.Membership.left env p (record s { running = rs })) near c refl
              (All-drop_first _ _ s.sock.controllers link.alone_controllers) link;
        others = All-drop_first _ _ s.sock.peers others;
        agrees = λ ks agree k.
            rw
              (
                left_on_link env frame p near c s link enc,
                on_disconnect env frame (wire disconnect near.id p.id []) ks dec refl,
              )
              (elem-delete_key k p.id ks ∙ rw (agree k) (sym (drop-ids p.id k s.sock.peers alone)));
      }
