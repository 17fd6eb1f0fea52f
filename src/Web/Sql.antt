-- ===== src/Web/Sql.antt =====
-- `splitSqlStatements` of web/src/lib/dbmux.ts: comments are removed, the rest is split at
-- semicolons, and parts are joined again while the quotes are open.
pub mod Text
pub mod Content
pub mod Quotes
pub mod Tidy
pub mod Faults
pub mod Plain
pub mod Tests
use Prim.Native.Char.{Char, code}
use Prim.Native.String.{[], ◌∷◌}
use arcops.Prelude.{
  ℕ, suc, ◌%◌, String, ◌≡◌, refl, Bool, true, false, not, ◌&&◌, ◌||◌, List, [], ◌∷◌, ◌++◌, eqb,
  ◌==◌, if◌then◌else◌,
}
use arcops.Js.Text.{template, trim, includes, split, drop_start, drop_end}

-- `sql.replace(/\/\*[\s\S]*?\*\//g, "")`. A comment that is not closed stays. The flag says that the
-- walk is inside a comment.
unfoldable pub strip_blocks : Bool → String → String
unfolding includes
strip_blocks inside [] = ""
strip_blocks true (c ∷ []) = ""
strip_blocks true (c ∷ d ∷ s) =
    let rest = strip_blocks false s in
    let more = strip_blocks true (d ∷ s) in
    if eqb (code c) b'*' && eqb (code d) b'/' then rest else more
strip_blocks false (c ∷ []) = c ∷ ""
strip_blocks false (c ∷ d ∷ s) =
    let comment = strip_blocks true s in
    let more = strip_blocks false (d ∷ s) in
    if eqb (code c) b'/' && eqb (code d) b'*' && includes s "*/" then comment else c ∷ more

-- Where `.` of a regular expression stops.
abbrev pub is_line_end : Char → Bool
is_line_end c = eqb (code c) 10 || eqb (code c) 13 || eqb (code c) 0x2028 || eqb (code c) 0x2029

-- `.replace(/--.*$/gm, "")`
unfoldable pub strip_lines : Bool → String → String
strip_lines inside [] = ""
strip_lines true (c ∷ s) =
    let rest = strip_lines false s in
    let more = strip_lines true s in if is_line_end c then c ∷ rest else more
strip_lines false (c ∷ []) = c ∷ ""
strip_lines false (c ∷ d ∷ s) =
    let comment = strip_lines true s in
    let more = strip_lines false (d ∷ s) in
    if eqb (code c) b'-' && eqb (code d) b'-' then comment else c ∷ more

unfoldable pub clean_sql : String → String
unfolding strip_blocks strip_lines
clean_sql sql = strip_lines false (strip_blocks false sql)

-- The number of single quotes, and whether it is even.
unfoldable pub quotes : String → ℕ
quotes [] = 0
quotes (c ∷ s) = if eqb (code c) b'\'' then suc (quotes s) else quotes s

abbrev pub is_even : ℕ → Bool
is_even n = eqb (n % 2) 0

abbrev pub is_semicolon : Char → Bool
is_semicolon c = eqb (code c) b';'

-- `current.trim().replace(/^;+/, "").replace(/;+$/, "").trim()`
unfoldable pub tidy : String → String
unfolding trim drop_start drop_end
tidy s = trim (drop_end is_semicolon (drop_start is_semicolon (trim s)))

-- `if (trimmed) result.push(trimmed)`
abbrev pub kept : String → List String
kept s = if s == "" then [] else s ∷ []

-- `current += (current ? ";" : "") + part`
abbrev pub extend : String → String → String
extend current part = if current == "" then part else template (current ∷ ";" ∷ part ∷ [])

-- The test for the end of a statement.
unfoldable pub ends_statement : String → Bool
unfolding quotes trim
ends_statement current = is_even (quotes current) && not (trim current == "")

-- The loop over the parts, with `current`; what it pushes from there on.
unfoldable pub gather : String → List String → List String
unfolding ends_statement tidy
gather current [] = if trim current == "" then [] else kept (tidy current)
gather current (part ∷ parts) =
    let current' = extend current part in
    let done = kept (tidy current') ++ gather "" parts in
    let open_part = gather current' parts in if ends_statement current' then done else open_part

-- `splitSqlStatements`
unfoldable pub split_sql_statements : String → List String
unfolding clean_sql gather split
split_sql_statements sql = gather "" (split b';' (clean_sql sql))
