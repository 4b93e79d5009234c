-- ===== src/Mdns/Wire.antt =====
-- What server.go and client.go rely on of miekg/dns: that a reply of few answers which fit the wire
-- format is packed, and unpacked as the answers that it holds.
use discovery_self.Base.{
  ℕ, List, [], ◌∷◌, Option, some, Text, ◌≡◌, Bool, true, false, ◌&&◌, ◌||◌, ◌==◌, ◌^◌, leb, ltb,
  length, split,
}
use discovery_self.Service.{is_name_char}
use discovery_self.Mdns.{
  Query, Question, Header, Answer, ptr, srv, txt, a_record, aaaa_record, other_record,
}

-- A character that stands for itself in a domain name, and in a text.
abbrev pub is_wire_char : ℕ → Bool
is_wire_char c = is_name_char c || c == b'[' || c == b']'

abbrev pub all_wire_chars : Text → Bool
all_wire_chars [] = true
all_wire_chars (c ∷ cs) = is_wire_char c && all_wire_chars cs

abbrev pub all_text_chars : Text → Bool
all_text_chars [] = true
all_text_chars (c ∷ cs) = (is_wire_char c || c == b'=' || c == b'/') && all_text_chars cs

-- Labels of 1 to 63 bytes, and a dot after the last of them.
abbrev pub labels_fit : List Text → Bool
labels_fit [] = false
labels_fit ([] ∷ []) = true
labels_fit ((c ∷ cs) ∷ []) = false
labels_fit (l ∷ k ∷ ls) =
    leb 1 (length l) && leb (length l) 63 && all_wire_chars l && labels_fit (k ∷ ls)

unfoldable pub domain_fits : Text → Bool
domain_fits name = leb (length name) 254 && labels_fit (split b'.' name)

unfoldable pub text_fits : Text → Bool
text_fits t = leb (length t) 255 && all_text_chars t

abbrev pub header_fits : Header → Bool
header_fits h = domain_fits h.name && ltb h.ttl (2 ^ 32)

-- Msg.Pack of the reply to a query, Msg.Unpack of a query and of a reply, whether an asker's address
-- is an IPv4 one, and the texts of the addresses of the two families.
pub record Wire : Type 0 where
  pub pack : Query → List Answer → Option Text
  pub unpack_query : Text → Option Query
  pub unpack_reply : Text → Option (List Answer)
  pub is_ipv4 : Text → Bool
  pub v4_text : Text → Bool
  pub v6_text : Text → Bool

unfoldable pub answer_fits : Wire → Answer → Bool
answer_fits k (ptr h target) = header_fits h && domain_fits target
answer_fits k (srv h priority weight port target) =
    header_fits h
    && domain_fits target
    && ltb priority (2 ^ 16)
    && ltb weight (2 ^ 16)
    && ltb port (2 ^ 16)
answer_fits k (txt h (t ∷ [])) = header_fits h && text_fits t
answer_fits k (txt h _) = false
answer_fits k (a_record h ip) = header_fits h && k.v4_text ip
answer_fits k (aaaa_record h ip) = header_fits h && k.v6_text ip
answer_fits k (other_record h) = false

abbrev pub all_fit : Wire → List Answer → Bool
all_fit k [] = true
all_fit k (a ∷ rest) = answer_fits k a && all_fit k rest

abbrev pub questions_fit : List Question → Bool
questions_fit [] = true
questions_fit (q ∷ qs) = domain_fits q.name && questions_fit qs

abbrev pub query_fits : Query → Bool
query_fits query = ltb query.id (2 ^ 16) && questions_fit query.questions

pub record IsWire (k : Wire) : Type 0 where
  pub round_trip :
      (query : Query) (answers : List Answer)
      → query_fits query ≡ true
      → all_fit k answers ≡ true
      → leb (length answers) 16 ≡ true
      → (bytes : Text) × (k.pack query answers ≡ some bytes) × (k.unpack_reply bytes ≡ some answers)
