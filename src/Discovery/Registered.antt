-- ===== src/Discovery/Registered.antt =====
-- What Init of zone.go makes of the service that Register of discovery.go hands over.
use discovery_self.Base.{
  ℕ, ◌≤◌, max_int, text_elem, List, [], ◌∷◌, ◌++◌, Option, none, some, Text, codes, text_eq,
  contains, ◌≡◌, ◌≢◌, refl, ap, sym, ◌∙◌, Bool, true, false, not, ◌&&◌, if◌then◌else◌, ◌==◌, itoa,
  Bool-cases, inl, inr, trim, trim_left, trim_right,
}
use discovery_self.Mdns.{Question, ptr_type}
use discovery_self.Step.{ok}
use discovery_self.Env.{Env}
use discovery_self.Model.{DiscoveryClient}
use discovery_self.Service.{World, is_valid_service_name}
use discovery_self.Mdns.Zone.{
  MdnsService, Host, Checked, done, failed, init, init_checked, init_host, init_addrs,
  full_addresses, use_addrs, use_addr, trim_dot, records, take_addr,
}
use discovery_self.Discovery.{
  short_name, instance_name, mdns_service, register, browse_entry, Dialer, ServiceEntry,
}
use discovery_self.Discovery.Names.{full_name, short_name-full_name}
use discovery_self.Discovery.Entries.{noted_entry_ignored}

trim_right-last :
    (p : ℕ → Bool) (s : Text) (c : ℕ) → p c ≡ false → trim_right p (s ++ c ∷ []) ≡ s ++ c ∷ []
unfolding trim_right
trim_right-last p [] c h = rw h refl
trim_right-last p (x ∷ []) c h = rw h refl
trim_right-last p (x ∷ y ∷ s) c h = rw (trim_right-last p (y ∷ s) c h) refl

trim_left-first : (p : ℕ → Bool) (c : ℕ) (cs : Text) → p c ≡ false → trim_left p (c ∷ cs) ≡ c ∷ cs
unfolding trim_left
trim_left-first p c cs h = rw h refl

-- Of a name that does not begin with a dot the instance's name has no dot at its ends.
trim_dot-instance_name :
    (c : ℕ) (cs : Text) (uid : ℕ)
    → (c == b'.') ≡ false
    → trim_dot (instance_name (c ∷ cs) uid) ≡ instance_name (c ∷ cs) uid
unfolding trim_dot trim
trim_dot-instance_name c cs uid h =
    rw (trim_right-last (λ x. x == b'.') (c ∷ (cs ++ b'[' ∷ itoa uid)) b']' refl)
      (trim_left-first (λ x. x == b'.') c _ h)

-- The fields that the choice of an address leaves alone.
abbrev Same : MdnsService → MdnsService → Type 0
Same m n =
    (n.instance_ ≡ m.instance_)
    × (n.service ≡ m.service)
    × (n.domain ≡ m.domain)
    × (n.info ≡ m.info)

Same-if : (b : Bool) (m n k : MdnsService) → Same m n → Same m k → Same m (if b then n else k)
Same-if true m n k hn hk = hn
Same-if false m n k hn hk = hk

Same-take_addr :
    (h : Host) (suffix addr : Text) (m n : MdnsService)
    → Same m n
    → Same m (take_addr h suffix addr n)
Same-take_addr h suffix addr m n s = Same-if (contains addr suffix) m _ n s s

Same-use_addrs :
    (h : Host) (xs : List Text) (m n : MdnsService) → Same m n → Same m (use_addrs h xs n)
unfolding use_addrs use_addr
Same-use_addrs h [] m n s = s
Same-use_addrs h (x ∷ xs) m n s = Same-use_addrs h xs m _ (
    Same-if (not (contains x (codes "::")) && not (contains x (codes "127"))) m _ n
      (Same-take_addr h (codes "/24") x m _ (Same-take_addr h (codes "/16") x m n s)) s)

-- A service as Init leaves it.
pub record IsInit (m n : MdnsService) : Type 0 where
  service_addr : n.service_addr ≡ trim_dot m.service ++ b'.' ∷ (trim_dot m.domain ++ b'.' ∷ [])
  instance_addr : n.instance_addr ≡ trim_dot m.instance_ ++ b'.' ∷ n.service_addr
  pub info : n.info ≡ m.info

full-IsInit : (m n : MdnsService) → Same m n → IsInit m (full_addresses n)
unfolding full_addresses
full-IsInit m n s = record {
  service_addr = rw (s.1, s.2) refl;
  instance_addr = rw s.0 refl;
  info = s.3;
}

done_inj : {A : Type 0} {a b : A} → done a ≡ done b → a ≡ b
done_inj e = cc

init_addrs-IsInit :
    (h : Host) (m n : MdnsService) (host : Text) (a b : Option (List Text))
    → init_addrs h (record m { host_name = host }) a b ≡ done n
    → IsInit m n
unfolding init_addrs
init_addrs-IsInit h m n host (some xs) b e = rw (← done_inj e) (
    full-IsInit m _
      (Same-use_addrs h xs m (record m { host_name = host }) (refl, refl, refl, refl)))
init_addrs-IsInit h m n host none (some xs) e =
    rw (← done_inj e) (full-IsInit m (record m { host_name = host }) (refl, refl, refl, refl))
init_addrs-IsInit h m n host none none e = cc

init_host-IsInit :
    (h : Host) (m n : MdnsService) (o : Option Text) → init_host h m o ≡ done n → IsInit m n
unfolding init_host
init_host-IsInit h m n none e = cc
init_host-IsInit h m n (some host) e =
    init_addrs-IsInit h m n _ h.interface_addrs h.interface_addrs_again e

unless_zero :
    (b : Bool) (h : Host) (m n : MdnsService) (r : Checked MdnsService)
    → (r ≡ done n → IsInit m n)
    → (if b then failed discovery_self.Mdns.Zone.missing_port else r) ≡ done n
    → IsInit m n
unless_zero true h m n r f e = cc
unless_zero false h m n r f e = f e

pub init-IsInit :
    (h : Host) (c : ℕ) (cs : Text) (uid port : ℕ) (n : MdnsService)
    → init h (mdns_service (c ∷ cs) uid port) ≡ done n
    → IsInit (mdns_service (c ∷ cs) uid port) n
unfolding init init_checked text_eq
init-IsInit h c cs uid port n e =
    unless_zero (port == 0) h (mdns_service (c ∷ cs) uid port) n
      (init_host h (mdns_service (c ∷ cs) uid port) h.hostname)
      (init_host-IsInit h (mdns_service (c ∷ cs) uid port) n h.hostname) e

module _ (h : Host) (c : ℕ) (cs : Text) (uid port : ℕ) (m : MdnsService)
    (set : init h (mdns_service (c ∷ cs) uid port) ≡ done m) where
  pub address : m.service_addr ≡ codes "_ws._tcp.local."
  address =
      (init-IsInit h c cs uid port m set).service_addr
      ∙ unfold trim_dot trim trim_left trim_right in refl

  -- A name that does not begin with a dot is advertised as it is.
  pub named : (c == b'.') ≡ false → m.instance_addr ≡ full_name (instance_name (c ∷ cs) uid)
  named dot =
      (init-IsInit h c cs uid port m set).instance_addr
      ∙ rw (trim_dot-instance_name c cs uid dot, address) refl

-- A process that has registered a socket, under a valid name that does not begin with a dot, ignores
-- what it advertises itself: Init of zone.go makes of the service, on any host, an instance's name,
-- and an entry of that name, of whatever content, changes nothing, in every later state whose list of
-- advertised names still holds all that the registration left in it.
pub own_entry_ignored :
    (env : Env) (dial : Dialer) (id : ℕ) (h : Host) (e : ServiceEntry) (c : ℕ) (cs : Text)
    (uid port : ℕ) (m : MdnsService) (w v x : World) (client : DiscoveryClient)
    → is_valid_service_name (c ∷ cs) ≡ true
    → (c == b'.') ≡ false
    → uid ≤ max_int
    → init h (mdns_service (c ∷ cs) uid port) ≡ done m
    → e.name ≡ m.instance_addr
    → register true uid (c ∷ cs) port w ≡ ok (client, v)
    → ((k : Text)
        → text_elem k v.service.advertised_service_names ≡ true
        → text_elem k x.service.advertised_service_names ≡ true)
    → browse_entry env dial id e x ≡ ok x
own_entry_ignored env dial id h e c cs uid port m w v x client valid dot fits set at noted kept =
    noted_entry_ignored env dial id e (c ∷ cs) uid port w v x client valid fits
      (at ∙ named h c cs uid port m set dot) noted kept

trim_left-head :
    (p : ℕ → Bool) (s : Text) (c : ℕ) (cs : Text) → trim_left p s ≡ c ∷ cs → p c ≡ false
unfolding trim_left
trim_left-head p [] c cs e = cc
trim_left-head p (x ∷ s) c cs e = elim (Bool-cases (p x)) [
  | inl hit ↦ trim_left-head p s c cs (rw hit at e)
  | inr miss ↦ rw (← first (rw miss at e)) miss
]
  where
    first : x ∷ s ≡ c ∷ cs → x ≡ c
    first e' = cc

-- A valid name may begin with a dot, which Init trims off: such a socket is advertised under another
-- short name than the one that Register notes as the process's own.
pub dotted_name_lost :
    (h : Host) (cs : Text) (uid port : ℕ) (m : MdnsService)
    → init h (mdns_service (b'.' ∷ cs) uid port) ≡ done m
    → short_name m.instance_addr ≢ instance_name (b'.' ∷ cs) uid
unfolding trim_dot trim
dotted_name_lost h cs uid port m set e = clash (
    trim_left-head (λ x. x == b'.') (trim_right (λ x. x == b'.') (instance_name (b'.' ∷ cs) uid))
      b'.' _ (sym (short k) ∙ e))
  where
    k : IsInit (mdns_service (b'.' ∷ cs) uid port) m
    k = init-IsInit h b'.' cs uid port m set

    short :
        IsInit (mdns_service (b'.' ∷ cs) uid port) m
        → short_name m.instance_addr ≡ trim_dot (instance_name (b'.' ∷ cs) uid)
    short i =
        ap short_name (
          i.instance_addr
          ∙ rw (i.service_addr ∙ unfold trim_dot trim trim_left trim_right in refl) refl)
        ∙ short_name-full_name (trim_dot (instance_name (b'.' ∷ cs) uid))

    clash : true ≡ false → ⊥
    clash x = cc
