-- ===== src/Proxy/Notify.antt =====
-- The effect of a text with a URL on the lists of notified texts, from a peer or from a proxy
-- (the read loops of peer.go and proxy.go).
use discovery_self.Base.{
  ℕ, List, [], ◌∷◌, ◌++◌, some, Text, codes, text_eq, ◌≡◌, ◌&&◌, not, if◌then◌else◌, Bool, refl,
  ◌∙◌, sym, true, false, ◌==◌, Bool-cases, Option-cases, inl, inr, ◌⊎◌,
}
use discovery_self.Env.{Env}
use discovery_self.Model.{State, PeerConnection, ControlConnection, Effect, pushed, fetched}
use discovery_self.Step.Writes.{writes_to}
use discovery_self.Step.{ok, crash, log_fatal, emit}
use discovery_self.Step.Inversion.{ok_eq}
use discovery_self.Step.Emits.{emit-nil}
use discovery_self.Sends.{show_notification}
use discovery_self.Peer
use discovery_self.Peer.{remember, unless_first_controller}
use discovery_self.Peer.Notify.{is_news, shown, show_notification-some, show_notification-none}
use discovery_self.Proxy.{notify}

abbrev pub remembered : Text → State → State
remembered text s = record s {
  peer_notified_list = s.peer_notified_list ++ text ∷ [];
  proxy_notified_list = s.proxy_notified_list ++ text ∷ [];
}

-- No text goes to any connection.
abbrev pub WritesNothing : List Effect → Type 0
WritesNothing es = (c : ℕ) → writes_to c es ≡ []

shown_lem :
    (env : Env) (url path text : Text) (linux arm : Bool)
    → WritesNothing (
        if linux && not arm
        then pushed (codes "Mediascape") text path ∷ []
        else if linux && arm
        then fetched (url ++ text) ∷ []
        else [])
shown_lem env url path text true true c = refl
shown_lem env url path text true false c = refl
shown_lem env url path text false true c = refl
shown_lem env url path text false false c = refl

pub show_inv :
    (env : Env) (url text : Text) (s t : State)
    → show_notification env url text s ≡ ok t
    → (es : List Effect) × WritesNothing es × (t ≡ emit es s)
show_inv env url text s t e = elim (Option-cases env.icon_path) [
  | inl n ↦ absurd (clash (sym (show_notification-none env url text s n) ∙ e))
  | inr (path, p) ↦ (
    shown env url path text,
    shown_lem env url path text (text_eq env.goos (codes "linux"))
        (text_eq env.goarch (codes "arm")),
    sym (ok_eq (sym (show_notification-some env url text path s p) ∙ e)),
  )
]
  where
    clash : crash log_fatal ≡ ok t → ⊥
    clash h = cc

-- How a step that returned left the state: as it was, or with the text remembered in both lists.
abbrev pub Remembers : Text → State → State → List Text → Type 0
Remembers text s t seen =
    ((t ≡ s) × (is_news text seen ≡ false))
    ⊎ ((es : List Effect) × WritesNothing es
        × (t ≡ emit es (remembered text s))
        × (is_news text seen ≡ true))

first_inv :
    (env : Env) (peer : PeerConnection) (cs : List ControlConnection) (url text : Text)
    (s t : State)
    → unless_first_controller peer cs (show_notification env url text) s ≡ ok t
    → (es : List Effect) × WritesNothing es × (t ≡ emit es s)
unfolding unless_first_controller
first_inv env peer [] url text s t e = cc
first_inv env peer (c ∷ cs) url text s t e = elim (Bool-cases (peer.id == c.id)) [
  | inl own ↦ ([], (λ c. refl), sym (ok_eq (rw own at e)) ∙ sym (emit-nil s))
  | inr other ↦ show_inv env url text s t (rw other at e)
]

pub peer_notify_inv :
    (env : Env) (peer : PeerConnection) (text : Text) (s t : State)
    → Peer.notify env peer text s ≡ ok t
    → Remembers text s t s.peer_notified_list
unfolding Peer.notify
peer_notify_inv env peer text s t e = elim (Bool-cases (is_news text s.peer_notified_list)) [
  | inl news ↦
      let (es, quiet, h) =
        first_inv env peer s.sock.controllers Peer.agent_url text (remembered text s) t
          (rw news at e) in
      inr (es, quiet, h, news)
  | inr old ↦ inl (sym (ok_eq (rw old at e)), old)
]

pub proxy_notify_inv :
    (env : Env) (text : Text) (s t : State)
    → notify env text s ≡ ok t
    → Remembers text s t s.proxy_notified_list
unfolding notify
proxy_notify_inv env text s t e = elim (Bool-cases (is_news text s.proxy_notified_list)) [
  | inl news ↦
      let (es, quiet, h) =
        show_inv env discovery_self.Proxy.agent_url text (remembered text s) t (rw news at e) in
      inr (es, quiet, h, news)
  | inr old ↦ inl (sym (ok_eq (rw old at e)), old)
]

-- Where the icon's path is known, the notification returns and the socket is as before.
pub proxy_notify_returns :
    (env : Env) (text path : Text) (s : State)
    → env.icon_path ≡ some path
    → (t : State) × (notify env text s ≡ ok t) × (t.sock ≡ s.sock)
unfolding notify
proxy_notify_returns env text path s p = elim (Bool-cases (is_news text s.proxy_notified_list)) [
  | inl news ↦ (
    emit (shown env discovery_self.Proxy.agent_url path text) (remembered text s),
    rw news
        (show_notification-some env discovery_self.Proxy.agent_url text path (remembered text s) p),
    refl,
  )
  | inr old ↦ (s, rw old refl, refl)
]
