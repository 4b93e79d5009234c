-- ===== src/Discovery/Once.antt =====
-- How often an instance is dialled (Browse of discovery.go).
use discovery_self.Base.{
  ℕ, List, [], ◌∷◌, ◌++◌, none, Text, text_elem, itoa, ◌≡◌, refl, true, All, Bool-cases,
  Option-cases, inl, inr, ◌⊎◌,
}
use discovery_self.Env.{Env}
use discovery_self.Step.{Result, ok, crash, ◌>>=◌}
use discovery_self.Service.{World, on_socket}
use discovery_self.Discovery.{
  ServiceEntry, Dialer, short_name, is_network_service, host_port, join_dialed, dialed,
  mark_registered, try_hosts, connect_entry, browse_entry,
}
use discovery_self.Discovery.Entries.{elem-add_name}

-- No host of the list answers.
abbrev pub NoAnswer : Dialer → Text → ℕ → ℕ → List Text → Type 0
NoAnswer dial path port id = All (λ h. dial (host_port h port) (path ++ b'/' ∷ itoa id) ≡ none)

abbrev pub IsRegistered : Text → World → Type 0
IsRegistered short w = text_elem short w.service.registered_service_names ≡ true

marked :
    (short : Text) (r : Result World) (v : World)
    → (r >>= λ w. ok (mark_registered short w)) ≡ ok v
    → IsRegistered short v
unfolding mark_registered
marked short (ok w) v e = rw (← inj e) (elem-add_name short w.service.registered_service_names)
  where
    inj : {a b : World} → ok a ≡ ok b → a ≡ b
    inj h = cc
marked short (crash f) v e = cc

registered_browse :
    (env : Env) (dial : Dialer) (id : ℕ) (e : ServiceEntry) (w : World)
    → IsRegistered (short_name e.name) w
    → browse_entry env dial id e w ≡ ok w
unfolding browse_entry
registered_browse env dial id e w h = elim (Bool-cases (is_network_service (short_name e.name))) [
  | inr other ↦ rw other refl
  | inl ours ↦
      elim (Bool-cases (text_elem (short_name e.name) w.service.advertised_service_names)) [
        | inl own ↦ rw (ours, own) refl
        | inr foreign ↦ rw (ours, foreign, h) refl
      ]
]

try_hosts-registers :
    (env : Env) (dial : Dialer) (short path : Text) (port id i : ℕ) (hosts : List Text)
    (w v : World)
    → try_hosts env dial short path port id i hosts w ≡ ok v
    → NoAnswer dial path port id hosts ⊎ IsRegistered short v
unfolding try_hosts dialed
try_hosts-registers env dial short path port id i [] w v e = inl tt
try_hosts-registers env dial short path port id i (h ∷ hs) w v e =
    elim (Option-cases (dial (host_port h port) (path ++ b'/' ∷ itoa id))) [
      | inl silent ↦
          elim (try_hosts-registers env dial short path port id i hs w v (rw silent at e)) [
            | inl rest ↦ inl (silent, rest)
            | inr done ↦ inr done
          ]
      | inr (ws, answers) ↦
          inr (marked short (on_socket i (join_dialed env id ws) w) v (rw answers at e))
    ]

-- An entry whose connection was tried, of whatever path, leaves either no host that answered, or a
-- process that ignores every later entry of the same short name, whatever else that holds.
pub connected_once :
    (env : Env) (dial again : Dialer) (id other : ℕ) (e later : ServiceEntry) (path : Text)
    (w v : World)
    → connect_entry env dial id e path w ≡ ok v
    → short_name later.name ≡ short_name e.name
    → NoAnswer dial path e.port id (e.host ∷ e.addr_v4 ∷ e.addr_v6 ∷ [])
      ⊎ (browse_entry env again other later v ≡ ok v)
unfolding connect_entry
connected_once env dial again id other e later path w v done same =
    elim (try_hosts-registers env dial (short_name e.name) path e.port id _ _ _ v done) [
      | inl silent ↦ inl silent
      | inr listed ↦ inr (registered_browse env again other later v (rw same listed))
    ]
