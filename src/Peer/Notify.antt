-- ===== src/Peer/Notify.antt =====
-- Notifications (the read loops of peer.go and proxy.go).
use discovery_self.Base.{
  List, [], ◌∷◌, ◌++◌, none, some, Text, codes, contains, text_elem, ◌≡◌, ◌≢◌, refl, ap, sym, Bool,
  true, false, ◌&&◌, not, if◌then◌else◌, ◌==◌, ==_iff, ==_refl, Bool-cases, Option-cases, inl, inr,
  ◌⊎◌, ◌↔◌, text_eq,
}
use discovery_self.Env.{Env}
use discovery_self.Model.{State, PeerConnection, ControlConnection, Effect, pushed, fetched}
use discovery_self.Step.{Result, ok, crash, index_out_of_range, log_fatal, emit, ◌>>=◌}
use discovery_self.Sends.{show_notification}
use discovery_self.Step.Emits.{emit-nil}
use discovery_self.Peer.{handle, notify, http_scheme, agent_url, unless_first_controller}

-- A text with a URL that was not notified before.
abbrev pub is_news : Text → List Text → Bool
is_news text seen = contains text http_scheme && not (text_elem text seen)

-- The notification that a text with a URL leads to: a call of the desktop's notifier on Linux, a
-- request to the local agent on Linux for ARM, and nothing on another system.
abbrev pub shown : Env → Text → Text → Text → List Effect
shown env url path text =
    if text_eq env.goos (codes "linux") && not (text_eq env.goarch (codes "arm"))
    then pushed (codes "Mediascape") text path ∷ []
    else if text_eq env.goos (codes "linux") && text_eq env.goarch (codes "arm")
    then fetched (url ++ text) ∷ []
    else []

show_cases :
    (linux arm : Bool) (es fs : List Effect) (s : State)
    → (if linux && not arm then emit es s else if linux && arm then emit fs s else s)
      ≡ emit (if linux && not arm then es else if linux && arm then fs else []) s
show_cases true true es fs s = refl
show_cases true false es fs s = refl
show_cases false true es fs s = sym (emit-nil s)
show_cases false false es fs s = sym (emit-nil s)

pub show_notification-some :
    (env : Env) (url text path : Text) (s : State)
    → env.icon_path ≡ some path
    → show_notification env url text s ≡ ok (emit (shown env url path text) s)
unfolding show_notification
show_notification-some env url text path s e =
    rw (e, show_notification)
      (ap ok
        (show_cases (text_eq env.goos (codes "linux")) (text_eq env.goarch (codes "arm")) _ _ s))

pub show_notification-none :
    (env : Env) (url text : Text) (s : State)
    → env.icon_path ≡ none
    → show_notification env url text s ≡ crash log_fatal
unfolding show_notification
show_notification-none env url text s e = rw (e, show_notification) refl

-- What a text from a peer needs for the process to survive it: nothing if it is no news; else a
-- controller, and, if that is not the peer's own, the path of the icon.
abbrev pub Survives : Env → PeerConnection → List ControlConnection → Type 0
Survives env peer [] = ⊥
Survives env peer (c ∷ cs) = (peer.id ≡ c.id) ⊎ (env.icon_path ≢ none)

-- The result returns.
abbrev pub Returns {ℓ} : {A : Type ℓ} → Result A → Type ℓ
Returns {A} r = (a : A) × (r ≡ ok a)

Returns-bind :
    (r : Result State) (f : State → Result State)
    → ((t : State) → Returns (f t))
    → Returns r
    → Returns (r >>= f)
Returns-bind r f total (t, e) = let (u, e') = total t in (u, rw e e')

Returns-unbind : (r : Result State) (f : State → Result State) → Returns (r >>= f) → Returns r
Returns-unbind (ok t) f h = (t, refl)
Returns-unbind (crash e) f (t, h) = cc

-- The check of the first controller, with what follows it.
first_controller_iff :
    (env : Env) (peer : PeerConnection) (text : Text) (cs : List ControlConnection) (s : State)
    → Returns (unless_first_controller peer cs (show_notification env agent_url text) s)
      ↔ Survives env peer cs
unfolding unless_first_controller
first_controller_iff env peer text [] s = ((λ (t, h). cc), λ h. absurd h)
first_controller_iff env peer text (c ∷ cs) s = elim (Bool-cases (peer.id == c.id)) [
  | inl own ↦ ((λ h. inl ((==_iff peer.id c.id).0 own)), λ h. (s, rw own refl))
  | inr other ↦ elim (Option-cases env.icon_path) [
    | inl e ↦ (
      (λ (t, h). absurd (clash t (rw (other, show_notification-none env agent_url text s e) at h))),
      λ h. absurd (apart other e h),
    )
    | inr (path, e) ↦ (
      (λ h. inr (λ e'. differ path e e')),
      λ h. (
        emit (shown env agent_url path text) s,
        rw other (show_notification-some env agent_url text path s e),
      ),
    )
  ]
]
  where
    clash : (t : State) → crash log_fatal ≡ ok t → ⊥
    clash t e = cc

    differ : (path : Text) → env.icon_path ≡ some path → env.icon_path ≡ none → ⊥
    differ path e e' = cc

    apart :
        (peer.id == c.id) ≡ false
        → env.icon_path ≡ none
        → (peer.id ≡ c.id) ⊎ (env.icon_path ≢ none)
        → ⊥
    apart other e (inl same) = cc (rw same at other, ==_refl c.id)
    apart other e (inr h) = h e

-- A text from a peer ends the process unless it has no URL, or was notified before, or there is a
-- controller that is first in the list and either has the peer's id or finds the icon's path known:
-- exactly then the handling of the text returns.
pub handle-Returns_iff :
    (env : Env) (peer : PeerConnection) (text : Text) (s : State)
    → Returns (handle env peer text s)
      ↔ ((is_news text s.peer_notified_list ≡ false) ⊎ Survives env peer s.sock.controllers)
unfolding handle notify
handle-Returns_iff env peer text s = elim (Bool-cases (is_news text s.peer_notified_list)) [
  | inl news ↦ rw news (
    (λ h. inr ((first_controller_iff env peer text s.sock.controllers _).0 (Returns-unbind _ _ h))),
    λ h.
        Returns-bind _ _ (λ t. (_, refl))
          ((first_controller_iff env peer text s.sock.controllers _).1 (settle news h)),
  )
  | inr old ↦ rw old ((λ h. inl refl), λ h. (_, refl))
]
  where
    settle : {b : Bool} {P : Type 0} → b ≡ true → (true ≡ false) ⊎ P → P
    settle e (inl h) = cc
    settle e (inr h) = h

-- So any peer ends the process by a new text with a URL while no controller is connected.
pub handle-no_controller :
    (env : Env) (peer : PeerConnection) (text : Text) (s : State)
    → is_news text s.peer_notified_list ≡ true
    → s.sock.controllers ≡ []
    → handle env peer text s ≡ crash index_out_of_range
unfolding handle notify unless_first_controller
handle-no_controller env peer text s news e = rw news (rw e refl)
