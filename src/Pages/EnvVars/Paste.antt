-- ===== src/Pages/EnvVars/Paste.antt =====
-- Pasting a printed list of variables.
use Prim.Native.Char.{Char, code}
use Prim.Native.String.{[], ◌∷◌}
use arcops.Prelude.{
  String, ◌≡◌, refl, sym, ap, Bool, true, false, ◌&&◌, ◌||◌, some, List, [], ◌∷◌, eqb, leb, ◌==◌,
  All, arith,
}
use arcops.Js.Text.{
  trim, drop_start, drop_end, keep_or_drop, split, starts_with, strip_prefix, ends_with,
}
use arcops.Js.Text.Empty.{cons-ne_empty}
use arcops.Js.Text.Chars.{is_space}
use arcops.Pages.EnvVars.{
  EnvVar, cut, inner, drop_last, unquote, is_secret_key, is_skipped, parse_line, parse_lines,
  parse_env,
}

-- The characters of a name: letters, digits and the underscore.
abbrev pub is_name_char : Char → Bool
is_name_char c =
    let n = code c in
    (leb 65 n && leb n 90) || (leb 97 n && leb n 122) || (leb 48 n && leb n 57) || eqb n 95

abbrev pub IsName : String → Type 0
IsName [] = Unit
IsName (c ∷ s) = (is_name_char c ≡ true) × IsName s

abbrev pub append : String → String → String
append [] t = t
append (c ∷ s) t = c ∷ append s t

-- The text has no line end.
abbrev pub IsLine : String → Type 0
IsLine [] = Unit
IsLine (c ∷ s) = (eqb (code c) b'\n' ≡ false) × IsLine s

-- A variable with a name for its key, a value on one line, and the mark that its key gives it.
abbrev pub IsPrintable : EnvVar → Type 0
IsPrintable v =
    (IsName v.key × ((v.key == "") ≡ false))
    × (IsLine v.value × (v.is_secret ≡ is_secret_key v.key))

-- `KEY="value"`
abbrev pub print_env_var : EnvVar → String
print_env_var v = append v.key (append "=\"" (append v.value "\""))

name_char-is_space : (c : Char) → is_name_char c ≡ true → is_space c ≡ false
unfolding is_space
name_char-is_space c h = ground arith

name_char-line : (c : Char) → is_name_char c ≡ true → eqb (code c) b'\n' ≡ false
name_char-line c h = ground arith

name_char-equals : (c : Char) → is_name_char c ≡ true → eqb (code c) b'=' ≡ false
name_char-equals c h = ground arith

-- A text that starts and ends outside the white space keeps its ends.
drop_end-append_quote : (s : String) → drop_end is_space (append s "\"") ≡ append s "\""
unfolding drop_end is_space
drop_end-append_quote [] = refl
drop_end-append_quote (c ∷ []) = refl
drop_end-append_quote (c ∷ d ∷ s) = ap (keep_or_drop is_space c) (drop_end-append_quote (d ∷ s))

drop_end-name : (s : String) → IsName s → drop_end is_space s ≡ s
unfolding drop_end
drop_end-name [] h = refl
drop_end-name (c ∷ []) h = rw (name_char-is_space c h.0) refl
drop_end-name (c ∷ d ∷ s) h = ap (keep_or_drop is_space c) (drop_end-name (d ∷ s) h.1)

trim-name : (s : String) → IsName s → trim s ≡ s
unfolding trim drop_start
trim-name [] h = refl
trim-name (c ∷ s) h = rw (name_char-is_space c h.0) (drop_end-name (c ∷ s) h)

trim-quoted : (s : String) → trim (append "\"" (append s "\"")) ≡ append "\"" (append s "\"")
unfolding trim drop_start is_space
trim-quoted s = drop_end-append_quote (append "\"" s)

ends_with-quote : (s : String) → ends_with (append s "\"") "\"" ≡ true
unfolding ends_with
ends_with-quote [] = refl
ends_with-quote (c ∷ s) = ground (arith, ends_with-quote s)

drop_last-quote : (s : String) → drop_last (append s "\"") ≡ s
unfolding drop_last
drop_last-quote [] = refl
drop_last-quote (c ∷ []) = refl
drop_last-quote (c ∷ d ∷ s) = ap (λ t. c ∷ t) (drop_last-quote (d ∷ s))

inner-quoted : (s : String) → inner (append "\"" (append s "\"")) ≡ s
unfolding inner
inner-quoted [] = refl
inner-quoted (c ∷ s) = drop_last-quote (c ∷ s)

unquote-quoted : (s : String) → unquote (append "\"" (append s "\"")) ≡ s
unfolding unquote starts_with strip_prefix
unquote-quoted s = rw (ends_with-quote (append "\"" s)) (inner-quoted s)

cut-name : (k rest : String) → IsName k → cut b'=' (append k (append "=" rest)) ≡ some (k, rest)
unfolding cut
cut-name [] rest h = refl
cut-name (c ∷ k) rest h = rw (name_char-equals c h.0) (rw (cut-name k rest h.1) refl)

name_char-comment :
    (c : Char) → is_name_char c ≡ true → (eqb (code c) b'#' ≡ false) × (eqb (code c) b'/' ≡ false)
name_char-comment c h = (ground arith, ground arith)

is_skipped-name : (k rest : String) → IsName k → is_skipped (append k (append "=" rest)) ≡ false
unfolding is_skipped starts_with strip_prefix
is_skipped-name [] rest h = rw (cons-ne_empty "=" rest) refl
is_skipped-name (c ∷ k) rest h =
    ground (arith, name_char-comment c h.0, cons-ne_empty c (append k (append "=" rest)))

drop_end-append :
    (s t : String) (c : Char)
    → drop_end is_space (c ∷ t) ≡ c ∷ t
    → drop_end is_space (append s (c ∷ t)) ≡ append s (c ∷ t)
unfolding drop_end
drop_end-append [] t c h = h
drop_end-append (b ∷ []) t c h = ap (keep_or_drop is_space b) h
drop_end-append (b ∷ d ∷ s) t c h = ap (keep_or_drop is_space b) (drop_end-append (d ∷ s) t c h)

trim-assignment :
    (k s : String)
    → IsName k
    → trim (append k (append "=\"" (append s "\""))) ≡ append k (append "=\"" (append s "\""))
unfolding trim drop_start is_space
trim-assignment [] s h = drop_end-append_quote (append "=\"" s)
trim-assignment (c ∷ k) s h = rw (name_char-is_space c h.0) (
    drop_end-append (c ∷ k) (append "\"" (append s "\"")) "="
      (drop_end-append_quote (append "=\"" s)))

parse_line-print : (v : EnvVar) → IsPrintable v → parse_line (print_env_var v) ≡ some v
unfolding parse_line
parse_line-print v h = rw (trim-assignment v.key v.value h.0.0) (
    rw (is_skipped-name v.key (append "\"" (append v.value "\"")) h.0.0) (
      rw (cut-name v.key (append "\"" (append v.value "\"")) h.0.0) (
        rw (trim-name v.key h.0.0) (
          rw h.0.1 (
            rw (trim-quoted v.value) (
              rw (unquote-quoted v.value)
                (ap (λ b. some (record v { is_secret = b })) (sym h.1.1))))))))

-- Splitting at the line ends.
split-line : (s : String) → IsLine s → split b'\n' s ≡ s ∷ []
unfolding split
split-line [] h = refl
split-line (c ∷ s) h = rw h.0 (rw (split-line s h.1) refl)

split-append :
    (s t : String) → IsLine s → split b'\n' (append s (append "\n" t)) ≡ s ∷ split b'\n' t
unfolding split
split-append [] t h = refl
split-append (c ∷ s) t h = rw h.0 (rw (split-append s t h.1) refl)

-- The printed list, one variable on a line, with a line end after each.
abbrev pub print_env : List EnvVar → String
print_env [] = ""
print_env (v ∷ vs) = append (print_env_var v) (append "\n" (print_env vs))

IsLine-append : (s t : String) → IsLine s → IsLine t → IsLine (append s t)
IsLine-append [] t h k = k
IsLine-append (c ∷ s) t h k = (h.0, IsLine-append s t h.1 k)

IsLine-name : (s : String) → IsName s → IsLine s
IsLine-name [] h = tt
IsLine-name (c ∷ s) h = (name_char-line c h.0, IsLine-name s h.1)

IsLine-print : (v : EnvVar) → IsPrintable v → IsLine (print_env_var v)
IsLine-print v h =
    IsLine-append v.key (append "=\"" (append v.value "\"")) (IsLine-name v.key h.0.0)
      (refl, (refl, IsLine-append v.value "\"" h.1.0 (refl, tt)))

-- Pasting a printed list of variables gives the variables back: keys of letters, digits and
-- underscores, any values without line ends, quotes and spaces included, and the marks that the keys
-- give.
pub parse_env-print_env : (vs : List EnvVar) → All IsPrintable vs → parse_env (print_env vs) ≡ vs
unfolding parse_env parse_lines
parse_env-print_env [] h = ground arith
parse_env-print_env (v ∷ vs) h =
    rw (split-append (print_env_var v) (print_env vs) (IsLine-print v h.0))
      (rw (parse_line-print v h.0, parse_lines) (ap (λ l. v ∷ l) (parse_env-print_env vs h.1)))
