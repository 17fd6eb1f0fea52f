-- ===== src/Web/Sql/Content.antt =====
-- Splitting loses nothing but white space and semicolons.
use Prim.Native.String.{◌++◌ as str_append}
use text.Mathlib.TextLemmas.{nil-append, append_assoc, append-nil}
use mathlib.Core.Path.{ap₂}
use arcops.Prelude.{
  String, ◌≡◌, sym, ap, ◌∙◌, true, List, [], ◌∷◌, ◌++◌, ◌==◌, eq_iff, Bool-cases, inl, inr,
}
use arcops.Js.Text.{template, trim, split}
use arcops.Web.Sql.{clean_sql, tidy, kept, extend, ends_statement, gather, split_sql_statements}
use arcops.Web.Sql.Text.{
  essence, essence-append, essence-semicolon, essence-trim, essence-tidy, essence-split,
}

pub template-append :
    (ss ts : List String) → template (ss ++ ts) ≡ str_append (template ss) (template ts)
template-append [] ts = sym (nil-append (template ts))
template-append (s ∷ ss) ts =
    ap (str_append s) (template-append ss ts) ∙ sym (append_assoc s (template ss) (template ts))

template-kept : (s : String) → template (kept s) ≡ s
template-kept s = elim (Bool-cases (s == "")) [
  | inl e ↦ rw e (sym ((eq_iff s "").0 e))
  | inr e ↦ rw e (append-nil s)
]

essence-extend :
    (current part : String) → essence (extend current part) ≡ essence (str_append current part)
unfolding essence
essence-extend current part = elim (Bool-cases (current == "")) [
  | inl e ↦ rw e (rw ((eq_iff current "").0 e) (rw nil-append))
  | inr e ↦ rw e (
      essence-append current (template (";" ∷ part ∷ []))
      ∙ (ap (str_append (essence current))
            (essence-semicolon (template (part ∷ [])) ∙ ap essence (append-nil part))
          ∙ sym (essence-append current part)))
]

-- A rest of white space has no content.
essence-nil_of_trim : (s : String) → (trim s == "") ≡ true → essence s ≡ ""
unfolding essence
essence-nil_of_trim s h = sym (essence-trim s) ∙ ap essence ((eq_iff (trim s) "").0 h)

essence-regroup :
    (current part rest : String)
    → essence (str_append (extend current part) rest)
      ≡ essence (str_append current (str_append part rest))
essence-regroup current part rest =
    essence-append (extend current part) rest
    ∙ (ap (λ r. str_append r (essence rest)) (essence-extend current part)
        ∙ (sym (essence-append (str_append current part) rest)
            ∙ ap essence (append_assoc current part rest)))

essence-gather :
    (current : String) (parts : List String)
    → essence (template (gather current parts)) ≡ essence (str_append current (template parts))
unfolding gather essence
essence-gather current [] = elim (Bool-cases (trim current == "")) [
  | inl e ↦ rw e (sym (ap essence (append-nil current) ∙ essence-nil_of_trim current e))
  | inr e ↦ rw e (
      ap essence (template-kept (tidy current))
      ∙ (essence-tidy current ∙ sym (ap essence (append-nil current))))
]
essence-gather current (part ∷ parts) =
    let whole = extend current part in
    elim (Bool-cases (ends_statement whole)) [
      | inl e ↦ rw e (
          ap essence (template-append (kept (tidy whole)) (gather "" parts))
          ∙ (essence-append (template (kept (tidy whole))) (template (gather "" parts))
              ∙ (ap₂ str_append (ap essence (template-kept (tidy whole)) ∙ essence-tidy whole)
                    (essence-gather "" parts ∙ ap essence (nil-append (template parts)))
                  ∙ (sym (essence-append whole (template parts))
                      ∙ essence-regroup current part (template parts)))))
      | inr e ↦ rw e (essence-gather whole parts ∙ essence-regroup current part (template parts))
    ]

-- The statements, one after the other, hold the text without its comments, character by character
-- but for white space and semicolons.
pub split_sql_statements-content :
    (sql : String) → essence (template (split_sql_statements sql)) ≡ essence (clean_sql sql)
unfolding split_sql_statements
split_sql_statements-content sql =
    essence-gather "" (split b';' (clean_sql sql))
    ∙ (ap essence (nil-append (template (split b';' (clean_sql sql))))
        ∙ essence-split (clean_sql sql))
