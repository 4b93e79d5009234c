-- ===== src/Discovery/Entries.antt =====
-- What the browser does with an advertisement (Register and Browse of discovery.go).
use discovery_self.Base.{
  ℕ, ◌≤◌, List, [], ◌∷◌, ◌++◌, Text, text_eq_refl, text_elem, ◌≡◌, refl, ap, ◌∙◌, true, false,
  max_int, Bool-cases, inl, inr, arith,
}
use discovery_self.Env.{Env}
use discovery_self.Model.{DiscoveryClient}
use discovery_self.Step.{ok}
use discovery_self.Service.{World, resolve, is_valid_service_name}
use discovery_self.Service.Parts.{network, socket_path}
use discovery_self.Discovery.{
  ServiceEntry, short_name, path_of_info, instance_name, service_info, register, browse_entry,
  connect_entry, try_hosts, add_name, Dialer,
}
use discovery_self.Discovery.Names.{
  full_name, short_name-full_name, is_network_service-instance_name,
}
use discovery_self.Discovery.Info.{path_of_info-service_info, path_base-network}

elem-snoc_self : (k : Text) (ks : List Text) → text_elem k (ks ++ k ∷ []) ≡ true
unfolding text_elem
elem-snoc_self k [] = rw (text_eq_refl k) refl
elem-snoc_self k (x ∷ ks) = ground (arith, elem-snoc_self k ks)

pub elem-add_name : (k : Text) (ks : List Text) → text_elem k (add_name k ks) ≡ true
elem-add_name k ks = elim (Bool-cases (text_elem k ks)) [
  | inl old ↦ rw old old
  | inr new ↦ rw new (elem-snoc_self k ks)
]

-- An entry as the mDNS library makes it of an advertisement: of any host, under its full name, with
-- its TXT record.
pub record IsAdvertised (e : ServiceEntry) (name : Text) (uid : ℕ) : Type 0 where
  pub full : e.name ≡ full_name (instance_name name uid)
  pub txt : e.info ≡ service_info name

-- What Register notes is in the list of what the process advertises.
register-notes :
    (uid port : ℕ) (name : Text) (w v : World) (client : DiscoveryClient)
    → register true uid name port w ≡ ok (client, v)
    → text_elem (instance_name name uid) v.service.advertised_service_names ≡ true
unfolding register
register-notes uid port name w v client e =
    rw (← ap (λ (r : DiscoveryClient × World). r.1.service.advertised_service_names) (result_inj e))
      (elem-add_name (instance_name name uid) w.service.advertised_service_names)
  where
    result_inj : {A : Type 0} {a b : A} → ok a ≡ ok b → a ≡ b
    result_inj h = cc

-- A process that has registered a socket ignores, wherever the names that it noted are still in its
-- list, an entry under the full name of the instance.
pub noted_entry_ignored :
    (env : Env) (dial : Dialer) (id : ℕ) (e : ServiceEntry) (name : Text) (uid port : ℕ)
    (w v x : World) (client : DiscoveryClient)
    → is_valid_service_name name ≡ true
    → uid ≤ max_int
    → e.name ≡ full_name (instance_name name uid)
    → register true uid name port w ≡ ok (client, v)
    → ((k : Text)
        → text_elem k v.service.advertised_service_names ≡ true
        → text_elem k x.service.advertised_service_names ≡ true)
    → browse_entry env dial id e x ≡ ok x
unfolding browse_entry
noted_entry_ignored env dial id e name uid port w v x client valid fits full done kept =
    rw
      (
        short,
        is_network_service-instance_name name uid valid fits,
        kept (instance_name name uid) (register-notes uid port name w v client done),
      )
      refl
  where
    short : short_name e.name ≡ instance_name name uid
    short = ap short_name full ∙ short_name-full_name (instance_name name uid)

-- An advertisement of another process under a valid name, not registered yet, leads to the socket of
-- the path /network/NAME, created as a network socket if need be, whose name is that of the channel:
-- its hosts are then dialled for that socket.
pub advertised_entry_connects :
    (env : Env) (dial : Dialer) (id : ℕ) (e : ServiceEntry) (name : Text) (uid : ℕ) (w : World)
    → is_valid_service_name name ≡ true
    → uid ≤ max_int
    → IsAdvertised e name uid
    → text_elem (instance_name name uid) w.service.advertised_service_names ≡ false
    → text_elem (instance_name name uid) w.service.registered_service_names ≡ false
    → browse_entry env dial id e w ≡ (
        let (i, v) = resolve (socket_path network name) name true w in
        try_hosts env dial
          (instance_name name uid)
          (socket_path network name)
          e.port
          id
          i
          (e.host ∷ e.addr_v4 ∷ e.addr_v6 ∷ [])
          v)
unfolding browse_entry connect_entry
advertised_entry_connects env dial id e name uid w valid fits ad foreign fresh =
    rw (short, is_network_service-instance_name name uid valid fits, foreign, fresh)
      (rw (ap path_of_info ad.txt ∙ path_of_info-service_info name valid)
        (rw (path_base-network name valid) refl))
  where
    short : short_name e.name ≡ instance_name name uid
    short = ap short_name ad.full ∙ short_name-full_name (instance_name name uid)
