-- ===== src/Mdns/Kept.antt =====
-- What the answers of one message leave of the entries of a query (the query's loop of client.go).
use discovery_self.Base.{
  ℕ, ◌+◌, ◌<◌, ◌≤◌, List, [], ◌∷◌, Option, none, some, Text, text_eq, ◌≡◌, refl, ap, sym, ◌∙◌, Bool,
  true, false, ◌==◌, ==_iff, arith, subst, Bool-cases, Option-cases, inl, inr, if◌then◌else◌, join,
}
use discovery_self.Service.{lookup_path, insert_path, set_at}
use discovery_self.Service.Found.{lookup-insert_path}
use discovery_self.Mdns.{Answer, ptr, srv, txt, a_record, aaaa_record, other_record}
use discovery_self.Mdns.Client.{
  Entry, Progress, new_entry, ensure_name, alias_, on_entry, on_answer, on_answers,
}

-- The names lead to entries that there are.
abbrev pub HasEntries : Progress → Type 0
HasEntries p = (name : Text) (i : ℕ) → lookup_path name p.names ≡ some i → i < p.next_entry

-- A change of the entries by which none is lost, renamed or handed out.
pub record Kept (p q : Progress) : Type 0 where
  pub has : HasEntries q
  pub grows : p.next_entry ≤ q.next_entry
  pub name : (i : ℕ) → i < p.next_entry → (q.entries i).name ≡ (p.entries i).name
  pub sent : (i : ℕ) → i < p.next_entry → (q.entries i).sent ≡ (p.entries i).sent

pub set_at-field :
    {A : Type 0} (g : Entry → A) (f : ℕ → Entry) (i j : ℕ) (e : Entry)
    → g e ≡ g (f i)
    → g (set_at f i e j) ≡ g (f j)
set_at-field g f i j e h = elim (Bool-cases (i == j)) [
  | inl hit ↦ rw hit (h ∙ ap (λ k. g (f k)) ((==_iff i j).0 hit))
  | inr miss ↦ rw miss refl
]

set_at-other : (f : ℕ → Entry) (i j : ℕ) (e : Entry) → j < i → set_at f i e j ≡ f j
set_at-other f i j e h = elim (Bool-cases (i == j)) [
  | inl hit ↦ let same = (==_iff i j).0 hit in absurd (omega (arith, same, h))
  | inr miss ↦ rw miss refl
]

pub Kept-refl : (p : Progress) → HasEntries p → Kept p p
Kept-refl p h = record {
  has = h;
  grows = omega arith;
  name = λ i used. refl;
  sent = λ i used. refl;
}

trans-Kept : (p q r : Progress) → Kept p q → Kept q r → Kept p r
trans-Kept p q r a b = record {
  has = b.has;
  grows = (let x = a.grows in let y = b.grows in omega (arith, x, y));
  name = λ i used. b.name i (later i used) ∙ a.name i used;
  sent = λ i used. b.sent i (later i used) ∙ a.sent i used;
}
  where
    later : (i : ℕ) → i < p.next_entry → i < q.next_entry
    later i used = let x = a.grows in omega (arith, x, used)

named :
    (name k : Text) (i j n : ℕ) (m : List (Text × ℕ))
    → ((x : Text) (y : ℕ) → lookup_path x m ≡ some y → y < n)
    → i < n
    → lookup_path k (insert_path name i m) ≡ some j
    → j < n
named name k i j n m h used e = elim (Bool-cases (text_eq name k)) [
  | inl hit ↦
      subst (λ x. x < n) (some_inj (rw hit at (sym (lookup-insert_path name k i m) ∙ e))) used
  | inr miss ↦ h k j (rw miss at (sym (lookup-insert_path name k i m) ∙ e))
]
  where
    some_inj : {x y : ℕ} → some x ≡ some y → x ≡ y
    some_inj h = cc

ensure_name-Kept :
    (name : Text) (p : Progress)
    → HasEntries p
    → ((ensure_name name p).0 < (ensure_name name p).1.next_entry) × Kept p (ensure_name name p).1
unfolding ensure_name
ensure_name-Kept name p h = elim (Option-cases (lookup_path name p.names)) [
  | inr (i, known) ↦ rw known (h name i known, Kept-refl p h)
  | inl new ↦ rw new (
    omega arith,
    record {
      has = λ k j e.
          named name k p.next_entry j (p.next_entry + 1) p.names (λ x y f. later (h x y f))
            (omega arith) e;
      grows = omega arith;
      name = λ i used. ap (λ (e : Entry). e.name) (other i used);
      sent = λ i used. ap (λ (e : Entry). e.sent) (other i used);
    },
  )
]
  where
    later : {y : ℕ} → y < p.next_entry → y < p.next_entry + 1
    later f = omega (arith, f)

    other :
        (i : ℕ) → i < p.next_entry → set_at p.entries p.next_entry (new_entry name) i ≡ p.entries i
    other i used = set_at-other p.entries p.next_entry i (new_entry name) used

alias_-Kept : (src dst : Text) (p : Progress) → HasEntries p → Kept p (alias_ src dst p)
unfolding alias_
alias_-Kept src dst p h =
    let (used, u) = ensure_name-Kept src p h in
    record {
      has = λ k j e.
          named dst k (ensure_name src p).0 j (ensure_name src p).1.next_entry
            (ensure_name src p).1.names u.has used e;
      grows = u.grows;
      name = u.name;
      sent = u.sent;
    }

-- What a round leaves: the entry in hand is one that there is.
abbrev pub InHand : Progress → Option ℕ × Progress → Type 0
InHand p (none, q) = Kept p q
InHand p (some i, q) = (i < q.next_entry) × Kept p q

on_entry-InHand :
    (name : Text) (f : Entry → Entry) (p q : Progress)
    → ((e : Entry) → (f e).sent ≡ e.sent)
    → ((e : Entry) → (f e).name ≡ e.name)
    → Kept p q
    → InHand p (on_entry name f q)
on_entry-InHand name f p q keeps names u =
    let (used, v) = ensure_name-Kept name q u.has in
    let n = ensure_name name q in
    let w = trans-Kept p q n.1 u v in
    (
      used,
      record {
        has = w.has;
        grows = w.grows;
        name = λ i h.
            set_at-field (λ (e : Entry). e.name) n.1.entries n.0 i (f (n.1.entries n.0))
              (names (n.1.entries n.0))
            ∙ w.name i h;
        sent = λ i h.
            set_at-field (λ (e : Entry). e.sent) n.1.entries n.0 i (f (n.1.entries n.0))
              (keeps (n.1.entries n.0))
            ∙ w.sent i h;
      },
    )

forget : (p : Progress) (s : Option ℕ × Progress) → InHand p s → Kept p s.1
forget p (none, q) u = u
forget p (some i, q) (used, u) = u

on_answer-InHand :
    (a : Answer) (p : Progress) (s : Option ℕ × Progress) → InHand p s → InHand p (on_answer a s)
unfolding on_answer
on_answer-InHand (ptr h target) p s u =
    on_entry-InHand target (λ e. e) p s.1 (λ e. refl) (λ e. refl) (forget p s u)
on_answer-InHand (srv h priority weight port target) p s u =
    on_entry-InHand h.name (λ e. record e { host = target; port = port }) p
      (if text_eq target h.name then s.1 else alias_ h.name target s.1) (λ e. refl) (λ e. refl)
      (aliased (text_eq target h.name))
  where
    aliased : (b : Bool) → Kept p (if b then s.1 else alias_ h.name target s.1)
    aliased true = forget p s u
    aliased false =
        trans-Kept p s.1 (alias_ h.name target s.1) (forget p s u)
          (alias_-Kept h.name target s.1 (forget p s u).has)
on_answer-InHand (txt h texts) p s u =
    on_entry-InHand h.name (λ e. record e { info = join b'|' texts; has_txt = true }) p s.1
      (λ e. refl) (λ e. refl) (forget p s u)
on_answer-InHand (a_record h ip) p s u =
    on_entry-InHand h.name (λ e. record e { addr_v4 = some ip }) p s.1 (λ e. refl) (λ e. refl)
      (forget p s u)
on_answer-InHand (aaaa_record h ip) p s u =
    on_entry-InHand h.name (λ e. record e { addr_v6 = some ip }) p s.1 (λ e. refl) (λ e. refl)
      (forget p s u)
on_answer-InHand (other_record h) p s u = u

pub on_answers-InHand :
    (as_ : List Answer) (p : Progress) (s : Option ℕ × Progress)
    → InHand p s
    → InHand p (on_answers as_ s)
unfolding on_answers
on_answers-InHand [] p s u = u
on_answers-InHand (a ∷ rest) p s u =
    on_answers-InHand rest p (on_answer a s) (on_answer-InHand a p s u)
