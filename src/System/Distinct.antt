-- ===== src/System/Distinct.antt =====
-- Lists of texts that hold each text once.
use discovery_self.Base.{
  List, [], ◌∷◌, ◌++◌, Text, text_eq, text_elem, text_eq_iff, ◌≡◌, refl, sym, ◌∙◌, false, ◌||◌,
  Bool-cases, inl, inr, arith,
}

abbrev pub Distinct : List Text → Type 0
Distinct [] = Unit
Distinct (t ∷ ts) = (text_elem t ts ≡ false) × Distinct ts

text_eq_sym : (s t : Text) → text_eq s t ≡ text_eq t s
text_eq_sym s t = elim (Bool-cases (text_eq s t)) [
  | inl e ↦ rw ((text_eq_iff s t).0 e) refl
  | inr e ↦ elim (Bool-cases (text_eq t s)) [
    | inl e' ↦ rw ((text_eq_iff t s).0 e') refl
    | inr e' ↦ e ∙ sym e'
  ]
]

elem-snoc :
    (t s : Text) (ts : List Text) → text_elem t (ts ++ s ∷ []) ≡ (text_elem t ts || text_eq t s)
unfolding text_elem
elem-snoc t s [] = ground arith
elem-snoc t s (x ∷ ts) = ground (arith, elem-snoc t s ts)

-- A text that is not in the list yet may be put behind it.
pub Distinct-snoc :
    (s : Text) (ts : List Text) → Distinct ts → text_elem s ts ≡ false → Distinct (ts ++ s ∷ [])
unfolding text_elem
Distinct-snoc s [] d new = (refl, tt)
Distinct-snoc s (t ∷ ts) d new = (
  elem-snoc t s ts ∙ rw d.0 (ground (arith, text_eq_sym s t)),
  Distinct-snoc s ts d.1 (ground arith),
)
