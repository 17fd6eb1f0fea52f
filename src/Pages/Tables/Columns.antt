-- ===== src/Pages/Tables/Columns.antt =====
-- The columns of the form for a new table.
use arcops.Prelude.{
  ℕ, suc, String, ◌≡◌, true, false, not, List, [], ◌∷◌, filter, length, All, arith, leb, eq_iff,
  inl, inr, Bool-cases, ◌==◌,
}
use arcops.Pages.Tables.{NewColumn, remove_column}

-- No identifier stands twice.
abbrev pub IsDistinct : List NewColumn → Type 0
IsDistinct [] = Unit
IsDistinct (c ∷ cs) = All (λ d. (d.id == c.id) ≡ false) cs × IsDistinct cs

abbrev others : String → List NewColumn → List NewColumn
others id cs = filter (λ c. not (c.id == id)) cs

All-others :
    (id key : String) (cs : List NewColumn)
    → All (λ d. (d.id == key) ≡ false) cs
    → All (λ d. (d.id == key) ≡ false) (others id cs)
All-others id key [] h = tt
All-others id key (c ∷ cs) h = elim (Bool-cases (c.id == id)) [
  | inl e ↦ rw (e, All) (All-others id key cs h.1)
  | inr e ↦ rw (e, All) (h.0, All-others id key cs h.1)
]

IsDistinct-others : (id : String) (cs : List NewColumn) → IsDistinct cs → IsDistinct (others id cs)
IsDistinct-others id [] h = tt
IsDistinct-others id (c ∷ cs) h = elim (Bool-cases (c.id == id)) [
  | inl e ↦ rw (e, IsDistinct) (IsDistinct-others id cs h.1)
  | inr e ↦ rw (e, IsDistinct) (All-others id c.id cs h.0, IsDistinct-others id cs h.1)
]

others-ne_nil :
    (id : String) (c d : NewColumn) (cs : List NewColumn)
    → (d.id == c.id) ≡ false
    → leb 1 (length (others id (c ∷ d ∷ cs))) ≡ true
others-ne_nil id c d cs h = elim (Bool-cases (c.id == id)) [
  | inl e ↦ elim (Bool-cases (d.id == id)) [
    | inl f ↦ ground (arith, eq_iff c.id id, eq_iff d.id id, eq_iff d.id c.id)
    | inr f ↦ rw e (rw f (ground arith))
  ]
  | inr e ↦ rw e (ground arith)
]

two_or_more : (n : ℕ) → leb (suc (suc n)) 1 ≡ false
two_or_more n = ground arith

-- Removing a column leaves at least one, and no identifier twice, if there was one and none stood
-- twice.
pub remove_column-IsDistinct :
    (id : String) (cs : List NewColumn)
    → IsDistinct cs
    → leb 1 (length cs) ≡ true
    → IsDistinct (remove_column id cs) × (leb 1 (length (remove_column id cs)) ≡ true)
unfolding remove_column
remove_column-IsDistinct id [] h k = (h, k)
remove_column-IsDistinct id (c ∷ []) h k = (h, k)
remove_column-IsDistinct id (c ∷ d ∷ cs) h k =
    rw (two_or_more (length cs), IsDistinct)
      (IsDistinct-others id (c ∷ d ∷ cs) h, others-ne_nil id c d cs h.0.0)
