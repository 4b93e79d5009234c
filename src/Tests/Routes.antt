-- ===== src/Tests/Routes.antt =====
-- A request to the server, with a choice of the longest pattern.
use discovery_self.Base.{
  ◌≤◌, List, [], ◌∷◌, ◌++◌, Option, none, some, Text, codes, ◌≡◌, refl, ◌∙◌, true, length, leb,
  ◌==◌, ==_iff, ==_refl, arith, ◌⊎◌, inl, inr, Bool-cases, Option-cases, if◌then◌else◌,
}
use discovery_self.Model.{Request}
use discovery_self.Step.{ok, ◌>>=◌}
use discovery_self.Service.{serve_ws_creator}
use discovery_self.Service.Console.{serve_console_template}
use discovery_self.Service.Mux.{IsMux, Listed, IsSocketPath, serve_http, routed}
use discovery_self.Tests.Requests.{empty, upgrade, get}
use discovery_self.Tests.Codec.{env}

abbrev strip : Text → Text → Option Text
strip [] s = some s
strip (c ∷ p) [] = none
strip (c ∷ p) (d ∷ s) = if c == d then strip p s else none

strip-append : (p r : Text) → strip p (p ++ r) ≡ some r
strip-append [] r = refl
strip-append (c ∷ p) r = rw (==_refl c) (strip-append p r)

strip_inv : (p s r : Text) → strip p s ≡ some r → s ≡ p ++ r
strip_inv [] s r e = some_eq e
  where
    some_eq : some s ≡ some r → s ≡ r
    some_eq h = cc
strip_inv (c ∷ p) [] r e = cc
strip_inv (c ∷ p) (d ∷ s) r e = elim (Bool-cases (c == d)) [
  | inl hit ↦ rw (strip_inv p s r (rw hit at e), (==_iff c d).0 hit) refl
  | inr miss ↦ absurd (clash (rw miss at e))
]
  where
    clash : none ≡ some r → ⊥
    clash h = cc

abbrev longer : Text → Option Text → Option Text
longer p none = some p
longer p (some q) = if leb (length p) (length q) then some q else some p

abbrev try_pattern : Option Text → Text → Option Text → Option Text
try_pattern none p o = o
try_pattern (some r) p o = longer p o

abbrev longest : List Text → Text → Option Text
longest [] s = none
longest (p ∷ ps) s = try_pattern (strip p s) p (longest ps s)

-- The pattern that is chosen is listed, and begins the path.
abbrev Fits : List Text → Text → Text → Type 0
Fits ps s q = Listed q ps × (more : Text) × (s ≡ q ++ more)

same_text : {p q : Text} → some p ≡ some q → p ≡ q
same_text h = cc

fits : (ps : List Text) (s q : Text) → longest ps s ≡ some q → Fits ps s q
fits [] s q e = cc
fits (p ∷ ps) s q e = elim (Option-cases (strip p s)) [
  | inl miss ↦ let (l, more, h) = fits ps s q (rw miss at e) in (inr l, more, h)
  | inr (r, hit) ↦ elim (Option-cases (longest ps s)) [
    | inl alone ↦ first r hit (same_text (rw (hit, alone) at e))
    | inr (x, known) ↦ elim (Bool-cases (leb (length p) (length x))) [
      | inl shorter ↦
          let (l, more, h) = fits ps s q (known ∙ rw (hit, known, shorter) at e) in (inr l, more, h)
      | inr above ↦ first r hit (same_text (rw (hit, known, above) at e))
    ]
  ]
]
  where
    first : (r : Text) → strip p s ≡ some r → p ≡ q → Fits (p ∷ ps) s q
    first r hit same = (inl same, r, rw (← same) (strip_inv p s r hit))

fit :
    (ps : List Text) (s p rest : Text)
    → Listed p ps
    → s ≡ p ++ rest
    → (q : Text) × (longest ps s ≡ some q) × (length p ≤ length q)
fit [] s p rest l h = absurd l
fit (x ∷ ps) s p rest (inl same) h =
    let hit : strip x s ≡ some rest = rw (h, same) (strip-append p rest) in
    elim (Option-cases (longest ps s)) [
      | inl alone ↦ (x, rw (hit, alone) refl, rw same (omega arith))
      | inr (y, known) ↦ elim (Bool-cases (leb (length x) (length y))) [
        | inl shorter ↦ (y, rw (hit, known, shorter) refl, rw (← same) (ground (arith, shorter)))
        | inr above ↦ (x, rw (hit, known, above) refl, rw same (omega arith))
      ]
    ]
fit (x ∷ ps) s p rest (inr l) h =
    let (q, known, bound) = fit ps s p rest l h in
    elim (Option-cases (strip x s)) [
      | inl miss ↦ (q, rw (miss, known) refl, bound)
      | inr (r, hit) ↦ elim (Bool-cases (leb (length x) (length q))) [
        | inl shorter ↦ (q, rw (hit, known, shorter) refl, bound)
        | inr above ↦ (x, rw (hit, known, above) refl, ground (arith, above, bound))
      ]
    ]

longest-IsMux : IsMux longest (λ path. true)
longest-IsMux = record {
  chosen = λ ps path p rest subtrees clean listed at.
      let (q, known, bound) = fit ps path p rest listed at in
      let (l, more, starts) = fits ps path q known in (q, more, known, l, starts, bound);
}

abbrev asks : Request
asks = get (codes "/network/chat/12345")

routed_example :
    (IsSocketPath asks.path
      × (serve_http env upgrade longest true asks empty
          ≡ (serve_ws_creator env upgrade asks empty >>= λ x. ok (none, x))))
    ⊎ ((¬ IsSocketPath asks.path)
        × (serve_http env upgrade longest true asks empty
            ≡ ok (some (serve_console_template empty.service true asks), empty)))
routed_example =
    routed env upgrade longest (λ path. true) longest-IsMux true asks empty refl
      (codes "network/chat/12345") refl
