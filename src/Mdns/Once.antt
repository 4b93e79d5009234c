-- ===== src/Mdns/Once.antt =====
-- How often a client hands an entry to its reader (the query's loop of client.go).
use discovery_self.Base.{ℕ, ◌<◌, ◌≤◌, List, [], ◌∷◌, ◌≡◌, ◌≢◌, true, false, All, map}
use discovery_self.Mdns.Client.{Entry, Progress, complete, Outcome, delivers, asks}
use discovery_self.Mdns.Kept.{HasEntries, Kept}

-- The entries that are handed to the reader, in their order.
abbrev pub handed : List Outcome → List Entry
handed [] = []
handed (delivers e ∷ os) = e ∷ handed os
handed (asks q ∷ os) = handed os

-- No place twice.
abbrev pub Apart : List ℕ → Type 0
Apart [] = Unit
Apart (i ∷ is) = All (λ j. i ≢ j) is × Apart is

-- A change by which no mark is taken away.
pub record Later (p q : Progress) : Type 0 where
  pub has : HasEntries q
  pub grows : p.next_entry ≤ q.next_entry
  pub name : (i : ℕ) → i < p.next_entry → (q.entries i).name ≡ (p.entries i).name
  pub sent : (i : ℕ) → i < p.next_entry → (p.entries i).sent ≡ true → (q.entries i).sent ≡ true

-- The entry at a place that had not been handed out.
abbrev pub Waits : Progress → ℕ → Type 0
Waits p i = i < p.next_entry → (p.entries i).sent ≡ false

-- An entry that is handed out, whole, is that of a place that waited and is marked now.
pub record Handed (p : Progress) (e : Entry) (q : Progress) : Type 0 where
  pub place : ℕ
  pub used : place < q.next_entry
  pub waited : Waits p place
  pub marked : (q.entries place).sent ≡ true
  pub name : e.name ≡ (q.entries place).name
  pub whole : complete e ≡ true

abbrev pub Gives : Progress → Outcome → Progress → Type 0
Gives p (delivers e) q = Handed p e q
Gives p (asks x) q = Unit

-- What is handed out of `p`, up to `q`: at each of the places once.
pub record Hands (p : Progress) (os : List Outcome) (q : Progress) : Type 0 where
  pub later : Later p q
  pub places : List ℕ
  pub waited : All (Waits p) places
  pub marked : All (λ i. (i < q.next_entry) × ((q.entries i).sent ≡ true)) places
  pub apart : Apart places
  pub names : map (λ (e : Entry). e.name) (handed os) ≡ map (λ i. (q.entries i).name) places
  pub whole : All (λ (e : Entry). complete e ≡ true) (handed os)
