-- ===== src/Tests/Query.antt =====
-- A query whose answers arrive twice.
use discovery_self.Base.{List, [], ◌∷◌, Text, codes}
use discovery_self.Step.{Result, ok, crash}
use discovery_self.Mdns.{Answer, Header, srv, txt, a_record}
use discovery_self.Mdns.Client.{Progress, no_progress, Outcome, on_messages}

abbrev header : Header
header = record { name = codes "x"; ttl = 120 }

abbrev answers : List Answer
answers =
    srv header 10 1 80 (codes "x") ∷ txt header (codes "y" ∷ []) ∷ a_record header (codes "z") ∷ []

abbrev result : Result (List Outcome × Progress) → List Outcome × Progress
result (ok a) = a
result (crash x) = ([], no_progress)

abbrev outcomes : List Outcome
outcomes = (result (on_messages (answers ∷ answers ∷ []) no_progress)).0

abbrev progress : Progress
progress = (result (on_messages (answers ∷ answers ∷ []) no_progress)).1
