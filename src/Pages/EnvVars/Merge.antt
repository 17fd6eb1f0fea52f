-- ===== src/Pages/EnvVars/Merge.antt =====
-- Where the pasted variables go.
use arcops.Prelude.{
  ℕ, zero, suc, ◌+◌, ◌≡◌, refl, sym, ap, ◌∙◌, List, [], ◌∷◌, ◌++◌, length, length-append,
  append_assoc, String, true, not, ◌&&◌, ◌||◌, filter, Bool-cases, inl, inr, ◌==◌, arith,
}
use arcops.Js.Text.{includes}
use arcops.Pages.EnvVars.{EnvVar, set_or_push, merge, is_filled, drop_blank, parse_env, paste_env}

abbrev pub drop : ℕ → List EnvVar → List EnvVar
drop zero vs = vs
drop (suc n) [] = []
drop (suc n) (v ∷ vs) = drop n vs

set_or_push-eq :
    (before after : List EnvVar) (item : EnvVar)
    → set_or_push (before ++ after) (length before) item ≡ before ++ item ∷ drop 1 after
unfolding set_or_push
set_or_push-eq [] [] item = refl
set_or_push-eq [] (v ∷ after) item = refl
set_or_push-eq (b ∷ before) after item = ap (λ l. b ∷ l) (set_or_push-eq before after item)

drop-drop : (n : ℕ) (vs : List EnvVar) → drop n (drop 1 vs) ≡ drop (suc n) vs
drop-drop zero [] = refl
drop-drop (suc n) [] = refl
drop-drop n (v ∷ vs) = refl

-- Merging at a row of the form replaces as many rows as there are variables from that row on, and
-- adds the variables beyond the end; the other rows stay.
merge-eq :
    (before after items : List EnvVar)
    → merge (before ++ after) (length before) items ≡ before ++ (items ++ drop (length items) after)
unfolding merge
merge-eq before after [] = refl
merge-eq before after (item ∷ items) =
    ap (λ l. merge l (length before + 1) items) (set_or_push-eq before after item)
    ∙ (ap (λ l. merge l (length before + 1) items)
          (sym (append_assoc before (item ∷ []) (drop 1 after)))
        ∙ (ap (λ n. merge ((before ++ item ∷ []) ++ drop 1 after) n items)
              (sym (length-append before (item ∷ [])))
            ∙ (merge-eq (before ++ item ∷ []) (drop 1 after) items
                ∙ (append_assoc before (item ∷ []) (items ++ drop (length items) (drop 1 after))
                    ∙ ap (λ l. before ++ item ∷ (items ++ l)) (drop-drop (length items) after)))))

drop_blank-last :
    (rows : List EnvVar) (last : EnvVar)
    → drop_blank (rows ++ last ∷ []) ≡ filter is_filled rows ++ last ∷ []
unfolding drop_blank
drop_blank-last [] last = refl
drop_blank-last (v ∷ []) last = elim (Bool-cases (is_filled v)) [
  | inl e ↦ rw e refl
  | inr e ↦ rw e refl
]
drop_blank-last (v ∷ w ∷ rows) last = elim (Bool-cases (is_filled v)) [
  | inl e ↦ rw e (ap (λ l. v ∷ l) (drop_blank-last (w ∷ rows) last))
  | inr e ↦ rw e (drop_blank-last (w ∷ rows) last)
]

-- The rows before the last that have a key or a value.
abbrev pub with_text : List EnvVar → List EnvVar
with_text rows = filter (λ v. not ((v.key == "") && (v.value == ""))) rows

with_text-eq : (rows : List EnvVar) → filter is_filled rows ≡ with_text rows
with_text-eq [] = refl
with_text-eq (v ∷ rows) = elim (Bool-cases (v.key == "")) [
  | inl e ↦ elim (Bool-cases (v.value == "")) [
    | inl f ↦ rw (e, f) (with_text-eq rows)
    | inr f ↦ rw (e, f) (ap (λ l. v ∷ l) (with_text-eq rows))
  ]
  | inr e ↦ rw e (ap (λ l. v ∷ l) (with_text-eq rows))
]

paste_env-merge :
    (prev items : List EnvVar) (item : EnvVar) (start : ℕ) (pasted : String)
    → (includes pasted "\n" || includes pasted "=") ≡ true
    → parse_env pasted ≡ item ∷ items
    → paste_env prev start pasted ≡ drop_blank (merge prev start (item ∷ items))
unfolding paste_env
paste_env-merge prev items item start pasted h parsed = ground (arith, h, parsed)

-- A text with a line end or an equals sign, in which there are variables, is pasted at a row of the
-- form: the variables replace as many rows from that row on, those beyond the end are added, and the
-- other rows stay. Of all these, the rows but the last go if they have neither key nor value.
pub paste_env-eq :
    (before after rows items : List EnvVar) (item last : EnvVar) (pasted : String)
    → (includes pasted "\n" || includes pasted "=") ≡ true
    → parse_env pasted ≡ item ∷ items
    → before ++ (item ∷ items ++ drop (length (item ∷ items)) after) ≡ rows ++ last ∷ []
    → paste_env (before ++ after) (length before) pasted ≡ with_text rows ++ last ∷ []
paste_env-eq before after rows items item last pasted h parsed e =
    paste_env-merge (before ++ after) items item (length before) pasted h parsed
    ∙ (ap drop_blank (merge-eq before after (item ∷ items) ∙ e)
        ∙ (drop_blank-last rows last ∙ ap (λ l. l ++ last ∷ []) (with_text-eq rows)))
