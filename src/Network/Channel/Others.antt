-- ===== src/Network/Channel/Others.antt =====
-- Controllers and proxies that come and go on one machine, and its link to the other (control.go,
-- proxy.go).
use discovery_self.Base.{
  ℕ, List, [], ◌∷◌, ◌++◌, Text, ◌≡◌, ◌≢◌, refl, ap, ◌∙◌, All, All-append, All-drop_first, Bool,
  true, false, ◌==◌, ==_iff, drop_first, elem, Bool-cases, inl, inr, append_assoc, flat_map,
  if◌then◌else◌,
}
use discovery_self.Env.{Env, IsEnv, connect, disconnect}
use discovery_self.Model.{State, PeerConnection, ControlConnection, ProxyConnection, Effect, Pump}
use discovery_self.Step.Emits.{closing}
use discovery_self.Step.Writes.{
  writes_to, writes_to-append, IsOther, writes_to-wire_other, writes_to-closing, writes_to-if,
}
use discovery_self.Live.{wire, told_of_peer}
use discovery_self.Control
use discovery_self.Proxy
use discovery_self.Proxy.{insert_key, delete_key}
use discovery_self.Proxy.Frames.{absorb, quiet-Silent}
use discovery_self.Network.Link.{IsLink, same-IsLink}
use discovery_self.Network.Sync.{peer_ids}
use discovery_self.Network.Channel.Near.{Follows, Silent-agrees}

-- Dropping another element of a list leaves one in its place.
drop_around :
    {A : Type 0} (P : A → Type 0) (test : A → Bool) (x : A) (before after : List A)
    → test x ≡ false
    → All P before
    → All P after
    → (bs : List A) × (gs : List A) × (drop_first test (before ++ x ∷ after) ≡ bs ++ x ∷ gs)
      × All P bs
      × All P gs
drop_around P test x [] after miss hb ha =
    ([], drop_first test after, rw miss refl, tt, All-drop_first P test after ha)
drop_around P test x (b ∷ before) after miss hb ha = elim (Bool-cases (test b)) [
  | inl hit ↦ (before, after, rw hit refl, hb.1, ha)
  | inr other ↦
      let (bs, gs, e, h, k) = drop_around P test x before after miss hb.1 ha in
      (b ∷ bs, gs, rw other (ap (λ l. b ∷ l) e), (hb.0, h), k)
]

module _ (env : Env) (spec : IsEnv env) (near : ProxyConnection) (c : ℕ) (s : State)
    (link : IsLink s near c)
    (others : All (λ (p : PeerConnection). IsOther c p.ws) s.sock.peers) where
  -- Nothing goes over the link.
  quiet_agrees :
      (es : List Effect) (t : State)
      → writes_to c es ≡ []
      → t.sock.peers ≡ s.sock.peers
      → (ks : List ℕ) → ((k : ℕ) → elem k ks ≡ elem k (peer_ids s.sock.peers))
      → (k : ℕ) → elem k (absorb env (writes_to c es) ks) ≡ elem k (peer_ids t.sock.peers)
  quiet_agrees es t h = Silent-agrees env c es s t (quiet-Silent env c es h)

  pub control_joins-Follows :
      (x : ControlConnection)
      → IsOther c x.ws
      → Follows env near c s (Control.Membership.joined env x s)
  control_joins-Follows x apart = record {
    es = es;
    written = refl;
    link =
        same-IsLink s (Control.Membership.joined env x s) near c refl
          (All-append (λ (y : ControlConnection). IsOther c y.ws) s.sock.controllers (x ∷ [])
            link.alone_controllers (apart, tt))
          link;
    others = others;
    agrees =
        quiet_agrees es (Control.Membership.joined env x s)
          (writes_to-append c (flat_map (Control.Membership.told_of_peer env x) s.sock.peers) _
            ∙ rw (of_peers s.sock.peers) (of_proxies s.sock.proxies))
          refl;
  }
    where
      es : List Effect
      es =
          flat_map (Control.Membership.told_of_peer env x) s.sock.peers
          ++ flat_map (Control.Membership.told_of_proxy env x s.maps) s.sock.proxies

      of_peers :
          (ps : List PeerConnection)
          → writes_to c (flat_map (Control.Membership.told_of_peer env x) ps) ≡ []
      of_peers [] = refl
      of_peers (p ∷ ps) =
          writes_to-append c (Control.Membership.told_of_peer env x p) _
          ∙ rw
              (writes_to-if c (x.id == p.id) [] _ refl
                (writes_to-wire_other env c (wire connect x.id p.id []) x.ws apart))
              (of_peers ps)

      of_ids : (is : List ℕ) → writes_to c (flat_map (Control.Membership.told_of_id env x) is) ≡ []
      of_ids [] = refl
      of_ids (i ∷ is) =
          writes_to-append c (Control.Membership.told_of_id env x i) _
          ∙ rw (writes_to-wire_other env c (wire connect x.id i []) x.ws apart) (of_ids is)

      of_proxies :
          (qs : List ProxyConnection)
          → writes_to c (flat_map (Control.Membership.told_of_proxy env x s.maps) qs) ≡ []
      of_proxies [] = refl
      of_proxies (q ∷ qs) =
          writes_to-append c (Control.Membership.told_of_proxy env x s.maps q) _
          ∙ rw (of_ids (env.range_order (s.maps q.peers))) (of_proxies qs)

  pub control_ends-Follows :
      (x : ControlConnection) (rs : List Pump)
      → Follows env near c s (Control.Membership.left x (record s { running = rs }))
  control_ends-Follows x rs = record {
    es = closing x.ws;
    written = refl;
    link =
        same-IsLink s (Control.Membership.left x (record s { running = rs })) near c refl
          (All-drop_first _ _ s.sock.controllers link.alone_controllers) link;
    others = others;
    agrees =
        quiet_agrees (closing x.ws) (Control.Membership.left x (record s { running = rs }))
          (writes_to-closing c x.ws) refl;
  }

  proxy_news :
      (action : Text) (p : ProxyConnection) (b : Bool) (ps : List PeerConnection)
      → IsOther c p.ws
      → writes_to c (if b then flat_map (told_of_peer env action p) ps else []) ≡ []
  proxy_news action p false ps apart = refl
  proxy_news action p true [] apart = refl
  proxy_news action p true (q ∷ ps) apart =
      writes_to-append c (told_of_peer env action p q) _
      ∙ rw (writes_to-wire_other env c (wire action p.id q.id []) p.ws apart)
          (proxy_news action p true ps apart)

  pub proxy_joins-Follows :
      (p : ProxyConnection) (maps : ℕ → List ℕ) (n : ℕ)
      → IsOther c p.ws
      → Follows env near c s
          (Proxy.Membership.joined env p (record s { maps = maps; next_map = n }))
  proxy_joins-Follows p maps n apart = record {
    es = Proxy.Membership.news env connect p s.sock.peers;
    written = refl;
    link = record {
      before = link.before;
      after = link.after ++ p ∷ [];
      listed =
          ap (λ l. l ++ p ∷ []) link.listed ∙ append_assoc link.before (near ∷ link.after) (p ∷ []);
      over = link.over;
      writes = link.writes;
      alone_before = link.alone_before;
      alone_after =
          All-append (λ (q : ProxyConnection). IsOther c q.ws) link.after (p ∷ []) link.alone_after
            (apart, tt);
      alone_controllers = link.alone_controllers;
    };
    others = others;
    agrees =
        quiet_agrees (Proxy.Membership.news env connect p s.sock.peers)
          (Proxy.Membership.joined env p (record s { maps = maps; next_map = n }))
          (proxy_news connect p p.writeable s.sock.peers apart) refl;
  }

  pub proxy_ends-Follows :
      (p : ProxyConnection) (rs : List Pump)
      → near.id ≢ p.id
      → IsOther c p.ws
      → Follows env near c s (Proxy.Membership.left env p (record s { running = rs }))
  proxy_ends-Follows p rs stays apart =
      let (bs, gs, e, hb, ha) =
        drop_around (λ (q : ProxyConnection). IsOther c q.ws) (λ q. q.id == p.id) near link.before
          link.after kept link.alone_before link.alone_after in
      record {
        es = Proxy.Membership.news env disconnect p s.sock.peers ++ closing p.ws;
        written =
            append_assoc s.out (Proxy.Membership.news env disconnect p s.sock.peers) (closing p.ws);
        link = record {
          before = bs;
          after = gs;
          listed = rw link.listed e;
          over = link.over;
          writes = link.writes;
          alone_before = hb;
          alone_after = ha;
          alone_controllers = link.alone_controllers;
        };
        others = others;
        agrees =
            quiet_agrees (Proxy.Membership.news env disconnect p s.sock.peers ++ closing p.ws)
              (Proxy.Membership.left env p (record s { running = rs }))
              (writes_to-append c (Proxy.Membership.news env disconnect p s.sock.peers)
                  (closing p.ws)
                ∙ rw (proxy_news disconnect p p.writeable s.sock.peers apart)
                    (writes_to-closing c p.ws))
              refl;
      }
    where
      kept : (near.id == p.id) ≡ false
      kept = elim (Bool-cases (near.id == p.id)) [
        | inl hit ↦ absurd (stays ((==_iff near.id p.id).0 hit))
        | inr miss ↦ miss
      ]
