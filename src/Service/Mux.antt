-- ===== src/Service/Mux.antt =====
-- StartHTTPServer of service.go: which handler serves a path. The choice of a pattern is net/http's.
use discovery_self.Base.{
  ◌≤◌, List, [], ◌∷◌, ◌++◌, Option, none, some, Text, codes, text_eq, ◌≡◌, refl, ap, sym, ◌∙◌, Bool,
  true, length, map, arith, ◌⊎◌, inl, inr, All, if◌then◌else◌,
}
use discovery_self.Env.{Env}
use discovery_self.Model.{Request}
use discovery_self.Step.{Result, ok, ◌>>=◌}
use discovery_self.Socket
use discovery_self.Service.{World, serve_ws_creator}
use discovery_self.Service.Console.{Reply, status, serve_console_template}

pub data Handler : Type 0 where
  console_handler ws_handler : Handler

-- The patterns that are registered, in their order.
abbrev pub routes : List (Text × Handler)
routes =
    (codes "/", console_handler)
    ∷ (codes "/local/", ws_handler)
    ∷ (codes "/network/", ws_handler)
    ∷ (codes "/control/", ws_handler)
    ∷ []

-- The pattern under which http.ServeMux serves a path; `none` where it answers by itself, by a redirect
-- or by 404.
abbrev pub Mux : Type 0
Mux = List Text → Text → Option Text

abbrev pub patterns : List Text
patterns = map (λ (r : Text × Handler). r.0) routes

abbrev handler_of : Text → List (Text × Handler) → Option Handler
handler_of p [] = none
handler_of p ((q, h) ∷ rs) = if text_eq q p then some h else handler_of p rs

module _ (env : Env) (upgrade : Socket.Upgrader) where
  -- A page for the console, or a connection.
  run_handler : Option Handler → Bool → Request → World → Result (Option Reply × World)
  run_handler none asset r w = ok (some (status 404), w)
  run_handler (some console_handler) asset r w =
      ok (some (serve_console_template w.service asset r), w)
  run_handler (some ws_handler) asset r w = serve_ws_creator env upgrade r w >>= λ x. ok (none, x)

  pattern_served : Option Text → Bool → Request → World → Result (Option Reply × World)
  unfolding run_handler
  pattern_served none asset r w = ok (none, w)
  pattern_served (some p) asset r w = run_handler (handler_of p routes) asset r w

  unfoldable pub serve_http : Mux → Bool → Request → World → Result (Option Reply × World)
  unfolding pattern_served
  serve_http mux asset r w = pattern_served (mux patterns r.path) asset r w

abbrev pub Listed : Text → List Text → Type 0
Listed p [] = ⊥
Listed p (q ∷ ps) = (q ≡ p) ⊎ Listed p ps

abbrev pub IsSubtree : Text → Type 0
IsSubtree p = (q : Text) × (p ≡ q ++ codes "/")

-- The documented choice among patterns that end in a slash, for a path that needs no redirect: one
-- that the path begins with, and no shorter one than another that it begins with.
pub record IsMux (mux : Mux) (is_clean : Text → Bool) : Type 0 where
  pub chosen :
      (ps : List Text) (path p rest : Text)
      → All IsSubtree ps
      → is_clean path ≡ true
      → Listed p ps
      → path ≡ p ++ rest
      → (q : Text) × (more : Text) × (mux ps path ≡ some q)
        × Listed q ps
        × (path ≡ q ++ more)
        × (length p ≤ length q)

subtrees : All IsSubtree patterns
subtrees = (
  ([], refl),
  ((codes "/local", refl), ((codes "/network", refl), ((codes "/control", refl), tt))),
)

-- A path of a socket, of either scope, or of a control connection.
abbrev pub IsSocketPath : Text → Type 0
IsSocketPath path =
    (rest : Text) × ((path ≡ codes "/local/" ++ rest)
      ⊎ (path ≡ codes "/network/" ++ rest)
      ⊎ (path ≡ codes "/control/" ++ rest))

module _ (env : Env) (upgrade : Socket.Upgrader) (mux : Mux) (is_clean : Text → Bool)
    (spec : IsMux mux is_clean) (asset : Bool) (r : Request) (w : World)
    (clean : is_clean r.path ≡ true) where
  -- The pattern "/" is chosen for no path of a socket.
  not_root :
      (p rest : Text)
      → mux patterns r.path ≡ some (codes "/")
      → Listed p patterns
      → r.path ≡ p ++ rest
      → 2 ≤ length p
      → ⊥
  not_root p rest root listed at long =
      let (q, more, e, known, starts, longer) =
        spec.chosen patterns r.path p rest subtrees clean listed at in
      let same : q ≡ codes "/" = some_eq (sym e ∙ root) in omega (arith, long, rw same at longer)
    where
      some_eq : {a b : Text} → some a ≡ some b → a ≡ b
      some_eq h = cc

  -- net/http chooses among patterns as documented, and the path needs no redirect. Then a request
  -- whose path begins with a slash is served by serveWSCreator if it is the path of a socket or of a
  -- control connection, and by the console's handler, which changes nothing, if it is not.
  pub routed :
      (rest : Text)
      → r.path ≡ codes "/" ++ rest
      → (IsSocketPath r.path
          × (serve_http env upgrade mux asset r w
              ≡ (serve_ws_creator env upgrade r w >>= λ x. ok (none, x))))
        ⊎ ((¬ IsSocketPath r.path)
            × (serve_http env upgrade mux asset r w
                ≡ ok (some (serve_console_template w.service asset r), w)))
  unfolding serve_http text_eq
  routed rest at =
      let (q, more, e, known, starts, longer) =
        spec.chosen patterns r.path (codes "/") rest subtrees clean (inl refl) at in
      pick q more e known starts
    where
      pick :
          (q more : Text)
          → mux patterns r.path ≡ some q
          → Listed q patterns
          → r.path ≡ q ++ more
          → (IsSocketPath r.path
              × (serve_http env upgrade mux asset r w
                  ≡ (serve_ws_creator env upgrade r w >>= λ x. ok (none, x))))
            ⊎ ((¬ IsSocketPath r.path)
                × (serve_http env upgrade mux asset r w
                    ≡ ok (some (serve_console_template w.service asset r), w)))
      pick q more e (inl same) starts = inr (none_of (e ∙ ap some (sym same)), rw (e, ← same) refl)
        where
          none_of : mux patterns r.path ≡ some (codes "/") → ¬ IsSocketPath r.path
          none_of root (t, inl h) =
              not_root (codes "/local/") t root (inr (inl refl)) h (omega arith)
          none_of root (t, inr (inl h)) =
              not_root (codes "/network/") t root (inr (inr (inl refl))) h (omega arith)
          none_of root (t, inr (inr h)) =
              not_root (codes "/control/") t root (inr (inr (inr (inl refl)))) h (omega arith)
      pick q more e (inr (inl same)) starts =
          inl ((more, inl (starts ∙ ap (λ p. p ++ more) (sym same))), rw (e, ← same) refl)
      pick q more e (inr (inr (inl same))) starts =
          inl ((more, inr (inl (starts ∙ ap (λ p. p ++ more) (sym same)))), rw (e, ← same) refl)
      pick q more e (inr (inr (inr (inl same)))) starts =
          inl ((more, inr (inr (starts ∙ ap (λ p. p ++ more) (sym same)))), rw (e, ← same) refl)
      pick q more e (inr (inr (inr (inr other)))) starts = absurd other
