-- ===== src/Service/Found.antt =====
-- The map from paths to sockets (service.go).
use discovery_self.Base.{
  ℕ, List, [], ◌∷◌, Option, none, some, Text, text_eq, text_eq_refl, text_eq_iff, ◌≡◌, refl, ap,
  sym, ◌∙◌, Bool, true, false, if◌then◌else◌, Bool-cases, inl, inr,
}
use discovery_self.Step.{ok, Step}
use discovery_self.Step.Inversion.{ok_eq, then_inv}
use discovery_self.Service.{
  World, resolve, on_socket, focus, unfocus, lookup_path, insert_path, new_socket,
  set_named_web_sockets, found_or_new,
}

pub lookup-insert_path :
    (k j : Text) (v : ℕ) (m : List (Text × ℕ))
    → lookup_path j (insert_path k v m) ≡ (if text_eq k j then some v else lookup_path j m)
unfolding lookup_path insert_path
lookup-insert_path k j v [] = refl
lookup-insert_path k j v ((i, x) ∷ m) = elim (Bool-cases (text_eq i k)) [
  | inl same ↦ rw same (rw ((text_eq_iff i k).0 same) (twice (text_eq k j)))
  | inr other ↦
      rw other (after (text_eq i j) (text_eq k j) (apart other) (lookup-insert_path k j v m))
]
  where
    twice :
        (b : Bool)
        → (if b then some v else lookup_path j m)
          ≡ (if b then some v else (if b then some x else lookup_path j m))
    twice true = refl
    twice false = refl

    apart : text_eq i k ≡ false → text_eq i j ≡ true → text_eq k j ≡ true → ⊥
    apart other e f =
        absurd (clash (rw ((text_eq_iff i j).0 e ∙ sym ((text_eq_iff k j).0 f)) at other))
      where
        clash : text_eq k k ≡ false → ⊥
        clash h = cc (text_eq_refl k)

    after :
        (a b : Bool)
        → (a ≡ true → b ≡ true → ⊥)
        → lookup_path j (insert_path k v m) ≡ (if b then some v else lookup_path j m)
        → (if a then some x else lookup_path j (insert_path k v m))
          ≡ (if b then some v else (if a then some x else lookup_path j m))
    after true true h e = absurd (h refl refl)
    after true false h e = refl
    after false b h e = e

lookup-found_or_new :
    (path name : Text) (b : Bool) (w : World) (o : Option ℕ)
    → lookup_path path w.service.named_web_sockets ≡ o
    → lookup_path path (found_or_new path name b w o).1.service.named_web_sockets
      ≡ some (found_or_new path name b w o).0
unfolding new_socket set_named_web_sockets
lookup-found_or_new path name b w none e =
    lookup-insert_path path path w.next_sock w.service.named_web_sockets
    ∙ rw (text_eq_refl path) refl
lookup-found_or_new path name b w (some i) e = e

-- Once a path is resolved, it is found wherever the service is as it was then.
pub resolve-again :
    (path name other : Text) (b c : Bool) (w x : World)
    → x.service ≡ (resolve path name b w).1.service
    → resolve path other c x ≡ ((resolve path name b w).0, x)
unfolding resolve
resolve-again path name other b c w x e =
    rw
      (ap (λ (v : discovery_self.Service.Service). lookup_path path v.named_web_sockets) e
        ∙ lookup-found_or_new path name b w (lookup_path path w.service.named_web_sockets) refl)
      refl

-- What is done at a socket leaves the service, and what is advertised, as they were.
pub on_socket-service :
    (i : ℕ) (step : Step) (w x : World)
    → on_socket i step w ≡ ok x
    → (x.service ≡ w.service) × (x.advertising ≡ w.advertising)
on_socket-service i step w x e =
    let (t, run, same) = then_inv (step (focus i w)) (λ s. ok (unfocus i w s)) e in
    (
      ap (λ (v : World). v.service) (sym (ok_eq same)),
      ap (λ (v : World). v.advertising) (sym (ok_eq same)),
    )
