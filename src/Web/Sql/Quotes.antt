-- ===== src/Web/Sql/Quotes.antt =====
-- No statement ends inside a quoted text.
use arcops.Prelude.{
  String, ◌≡◌, sym, ap, ◌∙◌, true, List, [], ◌∷◌, ◌++◌, ◌==◌, Bool-cases, inl, inr, arith,
}
use arcops.Js.Text.{trim, split}
use arcops.Web.Sql.{
  clean_sql, tidy, quotes, is_even, kept, extend, ends_statement, gather, split_sql_statements,
}
use arcops.Web.Sql.Text.{essence-tidy, quotes-essence}

quotes-tidy : (s : String) → quotes (tidy s) ≡ quotes s
quotes-tidy s = sym (quotes-essence (tidy s)) ∙ (ap quotes (essence-tidy s) ∙ quotes-essence s)

abbrev pub IsBalanced : String → Type 0
IsBalanced s = is_even (quotes s) ≡ true

-- Every statement but the last has an even number of quotes.
abbrev pub BalancedButLast : List String → Type 0
BalancedButLast [] = Unit
BalancedButLast (s ∷ []) = Unit
BalancedButLast (s ∷ t ∷ ss) = IsBalanced s × BalancedButLast (t ∷ ss)

BalancedButLast-cons :
    (s : String) (ss : List String) → IsBalanced s → BalancedButLast ss → BalancedButLast (s ∷ ss)
BalancedButLast-cons s [] b h = tt
BalancedButLast-cons s (t ∷ ss) b h = (b, h)

BalancedButLast-kept :
    (s : String) (ss : List String)
    → IsBalanced s
    → BalancedButLast ss
    → BalancedButLast (kept s ++ ss)
BalancedButLast-kept s ss b h = elim (Bool-cases (s == "")) [
  | inl e ↦ rw (e, kept) h
  | inr e ↦ rw (e, kept) (BalancedButLast-cons s ss b h)
]

BalancedButLast-kept_alone : (s : String) → BalancedButLast (kept s)
BalancedButLast-kept_alone s = elim (Bool-cases (s == "")) [
  | inl e ↦ rw (e, kept) tt
  | inr e ↦ rw (e, kept) tt
]

even_of_ends : (s : String) → ends_statement s ≡ true → IsBalanced s
unfolding ends_statement
even_of_ends s h = ground arith

BalancedButLast-gather :
    (current : String) (parts : List String) → BalancedButLast (gather current parts)
unfolding gather
BalancedButLast-gather current [] = elim (Bool-cases (trim current == "")) [
  | inl e ↦ rw e tt
  | inr e ↦ rw e (BalancedButLast-kept_alone (tidy current))
]
BalancedButLast-gather current (part ∷ parts) =
    let whole = extend current part in
    elim (Bool-cases (ends_statement whole)) [
      | inl e ↦ rw e (
          BalancedButLast-kept (tidy whole) (gather "" parts)
            (ap is_even (quotes-tidy whole) ∙ even_of_ends whole e)
            (BalancedButLast-gather "" parts))
      | inr e ↦ rw e (BalancedButLast-gather whole parts)
    ]

-- A split never falls inside a quoted text: each statement but the last has an even number of
-- quotes.
pub split_sql_statements-BalancedButLast :
    (sql : String) → BalancedButLast (split_sql_statements sql)
unfolding split_sql_statements
split_sql_statements-BalancedButLast sql = BalancedButLast-gather "" (split b';' (clean_sql sql))
