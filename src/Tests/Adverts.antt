-- ===== src/Tests/Adverts.antt =====
-- Advertisements, at concrete names.
use discovery_self.Base.{
  ℕ, [], ◌∷◌, Option, none, some, Text, codes, ◌≡◌, ◌⊎◌, refl, true, arith, text_elem, text_eq,
  to_lower,
}
use discovery_self.Step.{Result, ok, crash, index_out_of_range}
use discovery_self.Service.{World, resolve}
use discovery_self.Service.Parts.{network, socket_path}
use discovery_self.Discovery.{
  ServiceEntry, short_name, is_network_service, path_of_info, path_of_fields, instance_name,
  service_info, register, browse_entry, connect_entry, try_hosts, Dialer,
}
use discovery_self.Discovery.Names.{full_name}
use discovery_self.Discovery.Info.{path_of_info-service_info, path_of_fields-dangling}
use discovery_self.Discovery.Once.{NoAnswer, connected_once}
use discovery_self.Discovery.Entries.{advertised_entry_connects}
use discovery_self.Tests.Codec.{env}
use discovery_self.Tests.Requests.{empty, chat_valid}

abbrev pub entry : ServiceEntry
entry = record {
  name = full_name (instance_name (codes "chat") 77);
  host = codes "other.local.";
  addr_v4 = codes "192.168.0.2";
  addr_v6 = codes "fe80::1";
  port = 2000;
  info = service_info (codes "chat");
}

-- The host answers, its addresses would not.
abbrev pub dial : Dialer
dial host path = if_other host
  where
    if_other : Text → Option ℕ
    if_other [] = none
    if_other (c ∷ cs) = some 50

abbrev pub listed : World
listed = record empty {
  service = record empty.service {
    advertised_service_names = instance_name (codes "chat") 77 ∷ [];
  };
}

path_of_info-service_info_example :
    path_of_info (codes "path=/network/chat") ≡ ok (codes "/network/chat")
path_of_info-service_info_example = path_of_info-service_info (codes "chat") chat_valid

path_of_fields-dangling_example :
    path_of_fields (codes "txtvers" ∷ codes "1" ∷ codes "Path" ∷ []) ≡ crash index_out_of_range
path_of_fields-dangling_example =
    path_of_fields-dangling (codes "txtvers", codes "1") [] (codes "Path")
      ((unfold to_lower text_eq in refl), tt) (unfold to_lower in refl)

advertised_entry_connects_example : browse_entry env dial 1234 entry empty ≡ (
    let (i, v) = resolve (socket_path network (codes "chat")) (codes "chat") true empty in
    try_hosts env dial
      (instance_name (codes "chat") 77)
      (socket_path network (codes "chat"))
      2000
      1234
      i
      (codes "other.local." ∷ codes "192.168.0.2" ∷ codes "fe80::1" ∷ [])
      v)
unfolding text_elem
advertised_entry_connects_example =
    advertised_entry_connects env dial 1234 entry (codes "chat") 77 empty chat_valid (omega arith)
      (record { full = refl; txt = refl }) refl refl

abbrev value : Result World → World
value (ok w) = w
value (crash f) = empty

abbrev connected : World
connected = value (connect_entry env dial 1234 entry (codes "/network/chat") empty)

connects : connect_entry env dial 1234 entry (codes "/network/chat") empty ≡ ok connected
unfolding connect_entry try_hosts discovery_self.Discovery.trim_dot_suffix
    discovery_self.Discovery.join_dialed discovery_self.Proxy.add_connection
connects = refl

connected_once_example :
    NoAnswer dial
      (codes "/network/chat")
      2000
      1234
      (codes "other.local." ∷ codes "192.168.0.2" ∷ codes "fe80::1" ∷ [])
    ⊎ (browse_entry env dial 99 entry connected ≡ ok connected)
connected_once_example =
    connected_once env dial dial 1234 99 entry entry (codes "/network/chat") empty connected
      connects refl
