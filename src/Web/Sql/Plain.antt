-- ===== src/Web/Sql/Plain.antt =====
-- A text without quotes, semicolons and the characters of comment markers, before one semicolon.
use Prim.Native.Char.{Char, code}
use Prim.Native.String.{[], ◌∷◌, ◌++◌ as str_append}
use text.Mathlib.TextLemmas.{nil-append, cons-append}
use arcops.Prelude.{
  String, ◌≡◌, refl, sym, ap, ◌∙◌, Bool, true, false, not, ◌||◌, [], ◌∷◌, eqb, arith,
}
use arcops.Js.Text.{split, cons_head, drop_start, drop_end, keep_or_drop}
use arcops.Js.Text.Chars.{lower_char, upper_char}
use arcops.Js.Text.Every.{every, every-cons}
use arcops.Web.Sql.{
  strip_blocks, strip_lines, clean_sql, quotes, is_semicolon, tidy, ends_statement, gather,
  split_sql_statements,
}
use arcops.Web.Sql.Tidy.{IsTrimmed}

abbrev pub is_plain_char : Char → Bool
is_plain_char c =
    not (eqb (code c) b'\'' || eqb (code c) b';' || eqb (code c) b'-' || eqb (code c) b'/')

-- No quote, semicolon, dash or slash.
abbrev pub IsPlain : String → Type 0
IsPlain s = every is_plain_char s ≡ true

pub lower_char-plain : (c : Char) → is_plain_char c ≡ true → is_plain_char (lower_char c) ≡ true
unfolding lower_char
lower_char-plain c h = ground arith

pub upper_char-plain : (c : Char) → is_plain_char c ≡ true → is_plain_char (upper_char c) ≡ true
unfolding upper_char
upper_char-plain c h = ground arith

module _ (c : Char) (h : is_plain_char c ≡ true) where
  not_quote : eqb (code c) b'\'' ≡ false
  not_quote = ground arith

  not_semicolon : eqb (code c) b';' ≡ false
  not_semicolon = ground arith

  not_dash : eqb (code c) b'-' ≡ false
  not_dash = ground arith

  not_slash : eqb (code c) b'/' ≡ false
  not_slash = ground arith

plain : (c : Char) (s : String) → IsPlain (c ∷ s) → (is_plain_char c ≡ true) × IsPlain s
plain = every-cons is_plain_char

strip_blocks-plain :
    (s : String) → IsPlain s → strip_blocks false (str_append s ";") ≡ str_append s ";"
unfolding strip_blocks
strip_blocks-plain [] h = rw nil-append refl
strip_blocks-plain (c ∷ []) h =
    rw (cons-append, nil-append) (rw (not_slash c (plain c "" h).0) refl)
strip_blocks-plain (c ∷ d ∷ s) h =
    rw (cons-append, cons-append)
      (rw (not_slash c (plain c (d ∷ s) h).0) (
        ap (λ r. c ∷ r)
          (ap (strip_blocks false) (sym (cons-append d s ";"))
            ∙ (strip_blocks-plain (d ∷ s) (plain c (d ∷ s) h).1 ∙ cons-append d s ";"))))

strip_lines-plain :
    (s : String) → IsPlain s → strip_lines false (str_append s ";") ≡ str_append s ";"
unfolding strip_lines
strip_lines-plain [] h = rw nil-append refl
strip_lines-plain (c ∷ []) h = rw (cons-append, nil-append) (rw (not_dash c (plain c "" h).0) refl)
strip_lines-plain (c ∷ d ∷ s) h =
    rw (cons-append, cons-append)
      (rw (not_dash c (plain c (d ∷ s) h).0) (
        ap (λ r. c ∷ r)
          (ap (strip_lines false) (sym (cons-append d s ";"))
            ∙ (strip_lines-plain (d ∷ s) (plain c (d ∷ s) h).1 ∙ cons-append d s ";"))))

split-plain : (s : String) → IsPlain s → split b';' (str_append s ";") ≡ s ∷ "" ∷ []
unfolding split
split-plain [] h = ap (split b';') (nil-append ";")
split-plain (c ∷ s) h =
    rw cons-append
      (rw (not_semicolon c (plain c s h).0) (ap (cons_head c) (split-plain s (plain c s h).1)))

quotes-plain : (s : String) → IsPlain s → quotes s ≡ 0
unfolding quotes
quotes-plain [] h = refl
quotes-plain (c ∷ s) h = rw (not_quote c (plain c s h).0) (quotes-plain s (plain c s h).1)

drop_start-plain : (s : String) → IsPlain s → drop_start is_semicolon s ≡ s
unfolding drop_start
drop_start-plain [] h = refl
drop_start-plain (c ∷ s) h = rw (not_semicolon c (plain c s h).0) refl

keep-plain :
    (c : Char) (s : String) → is_plain_char c ≡ true → keep_or_drop is_semicolon c s ≡ c ∷ s
keep-plain c [] h = rw (not_semicolon c h) refl
keep-plain c (d ∷ s) h = refl

drop_end-plain : (s : String) → IsPlain s → drop_end is_semicolon s ≡ s
unfolding drop_end
drop_end-plain [] h = refl
drop_end-plain (c ∷ s) h =
    ap (keep_or_drop is_semicolon c) (drop_end-plain s (plain c s h).1)
    ∙ keep-plain c s (plain c s h).0

module _ (s : String) (h : IsPlain s) (t : IsTrimmed s) where
  tidy-plain : tidy s ≡ s
  unfolding tidy
  tidy-plain = rw (t.1, drop_start-plain s h, drop_end-plain s h) t.1

  ends_statement-plain : ends_statement s ≡ true
  unfolding ends_statement
  ends_statement-plain = rw (quotes-plain s h, t.1, t.0) refl

  gather-plain : gather "" (s ∷ "" ∷ []) ≡ s ∷ []
  unfolding gather ends_statement
  gather-plain = rw (ends_statement-plain, tidy-plain, t.0) refl

  pub split_sql_statements-plain : split_sql_statements (str_append s ";") ≡ s ∷ []
  unfolding split_sql_statements clean_sql
  split_sql_statements-plain =
      rw (strip_blocks-plain s h, strip_lines-plain s h, split-plain s h) gather-plain
