-- ===== src/Mdns.antt =====
-- richtr/mdns (client.go, zone.go, server.go), as this repository has it: the addresses of a service
-- are those of the host's interfaces. DNS records and questions are those of miekg/dns; the network,
-- the host and the wire format are arguments. An IP address is its text, and a nil one is `none`.
pub mod Zone
pub mod Server
pub mod Client
pub mod Advert
pub mod Kept
pub mod Once
pub mod Replies
pub mod Wire
use discovery_self.Base.{ℕ, List, Text, Bool}

pub data Qtype : Type 0 where
  any_type ptr_type srv_type txt_type a_type aaaa_type : Qtype
  other_type : ℕ → Qtype

pub record Question : Type 0 where
  pub name : Text
  pub qtype : Qtype

-- RR_Header; the class is ClassINET throughout.
pub record Header : Type 0 where
  pub name : Text
  pub ttl : ℕ

pub data Answer : Type 0 where
  ptr : Header → Text → Answer
  -- priority, weight, port and target
  srv : Header → ℕ → ℕ → ℕ → Text → Answer
  txt : Header → List Text → Answer
  a_record aaaa_record : Header → Text → Answer
  other_record : Header → Answer

-- A query, as far as it is looked at: the questions, and what SetReply of miekg/dns copies of the
-- header. SetReply also copies the first of the questions.
pub record Query : Type 0 where
  pub id : ℕ
  pub recursion_desired : Bool
  pub questions : List Question
