-- ===== src/Web/Dbmux.antt =====
-- `DBMuxWrapper` of web/src/lib/dbmux.ts: health, running SQL, and the provider's configuration.
pub mod Queries
pub mod Tables
pub mod Grouping
pub mod Sending
pub mod Shape
pub mod Tests
use arcops.Prelude.{
  ℕ, String, Bool, true, false, Option, none, some, List, [], ◌∷◌, ◌++◌, map, length, find, not,
  ◌&&◌, ◌||◌, eqb, ◌==◌, if◌then◌else◌,
}
use arcops.Js.Text.{template, includes, to_lower}
use arcops.Js.Text.Number.{number_of_text}
use arcops.Js.Json.{
  Json, undefined, null, bool, num, str, arr, obj, object, array, get, truthy, or_else, or_absent,
  is_nullish, is_array, array_of, to_string,
}
use arcops.Js.Exec.{Error, pure, throw, gets, catch, prop, type_error, ◌>>=◌, ◌>>◌}
use arcops.Js.World.{World, Io, Request, Response, fetch, is_ok}
use arcops.Web.DbmuxSdk.{Client, do_request, postgres_query}
use arcops.Web.Tenant.{Decoder, get_tenant_id}
use arcops.Web.Sql.{split_sql_statements}

-- `Number(v)` where it is a natural number; every other number and NaN is `none`.
unfoldable pub to_number : Json → Option ℕ
unfolding number_of_text
to_number undefined = none
to_number null = some 0
to_number (bool true) = some 1
to_number (bool false) = some 0
to_number (num n) = some n
to_number (obj fs) = none
to_number v = number_of_text (to_string v)

-- `Number(v) || n`
abbrev pub count_or : Option ℕ → ℕ → ℕ
count_or none n = n
count_or (some k) n = if eqb k 0 then n else k

-- The result of `executeSQL`.
pub record SqlResult : Type 0 where
  pub columns : List Json
  pub rows : List (List Json)
  pub row_count : ℕ

abbrev pub no_rows : SqlResult
no_rows = record { columns = []; rows = []; row_count = 0 }

-- `r.values?.[c] ?? r[c] ?? ""`; what a row inherits is not read, such as the method `values`
-- of an array.
abbrev pub cell : Json → Json → Json
cell r c = or_absent (get (get r "values") (to_string c)) (or_absent (get r (to_string c)) (str ""))

-- `v || []` before a `map`, which no other value has.
array_or_throw : Json → Io (List Json)
array_or_throw v =
    let list = or_else v (array []) in
    if is_array list then pure (array_of list) else throw type_error

-- The columns; they are mapped at each row, so without a row nothing throws, and a value that is no
-- array counts as no columns.
columns_or_throw : List Json → Json → Io (List Json)
unfolding array_or_throw
columns_or_throw [] v = pure (if is_array v then array_of v else [])
columns_or_throw (r ∷ raw) v = array_or_throw v

any_null : List Json → Bool
any_null [] = false
any_null (v ∷ vs) = is_nullish v || any_null vs

abbrev pub shaped : Json → List Json → List Json → SqlResult
shaped res cols raw = record {
  columns = cols;
  rows = map (λ r. map (cell r) cols) raw;
  row_count = count_or (to_number (get res "rows_returned")) (length raw);
}

-- The columns and rows of a response. A cell of a row that is null throws.
unfoldable pub shape : Json → Io SqlResult
unfolding any_null array_or_throw columns_or_throw
shape res = do
  columns ← prop res "columns"
  rows ← prop res "rows"
  raw ← array_or_throw rows
  cols ← columns_or_throw raw columns
  if any_null raw && not (eqb (length cols) 0) then throw type_error else pure (shaped res cols raw)

-- One query for each statement; the result of the last.
unfoldable pub run_statements : Client → Json → SqlResult → List String → Io SqlResult
unfolding shape postgres_query
run_statements c provider last [] = pure last
run_statements c provider last (stmt ∷ rest) = do
  res ← postgres_query c provider stmt none
  result ← shape res
  run_statements c provider result rest

-- `checkHealth`
unfoldable pub check_health : String → Io String
check_health gateway_url =
    catch
      (do
        res ← fetch (record {
          url = template (gateway_url ∷ "/rpc/healthz" ∷ []);
          method = "GET";
          headers = [];
          credentials = true;
          body = none;
        })
        if is_ok res then pure "online" else pure "offline")
      (λ _. pure "offline")

module _ (d : Decoder) (c : Client) where
  -- `providerId || getTenantId() || ""`
  unfoldable pub active_provider : Json → World → Json
  unfolding get_tenant_id
  active_provider provider w = or_else provider (or_else (get_tenant_id d w.local) (str ""))

  unfoldable pub execute_sql : String → Json → Io SqlResult
  unfolding run_statements active_provider
  execute_sql sql provider_id = do
    provider ← gets (active_provider provider_id)
    if truthy provider
        then run_statements c provider no_rows (split_sql_statements sql)
        else pure no_rows

-- `getBackendConfig`
default_config : String → Json
default_config provider_id = object (
    ("id", str provider_id)
    ∷ ("category", str provider_id)
    ∷ ("status", str "active")
    ∷ ("endpoint", str (template ("grpc://" ∷ provider_id ∷ ".internal:8000" ∷ [])))
    ∷ [])

-- `p.id === providerId || p.category?.toLowerCase()?.includes(providerId)`, for categories that are
-- texts.
has_id : String → Json → Bool
has_id provider_id (str s) = s == provider_id
has_id provider_id _ = false

in_category : String → Json → Bool
unfolding to_lower includes
in_category provider_id (str s) = includes (to_lower s) provider_id
in_category provider_id _ = false

serves : String → Json → Bool
unfolding has_id in_category
serves provider_id p = has_id provider_id (get p "id") || in_category provider_id (get p "category")

abbrev found_or : String → Option Json → Json
found_or provider_id none = default_config provider_id
found_or provider_id (some p) = p

unfoldable pub get_backend_config : Client → String → Io Json
unfolding do_request serves default_config array_or_throw
get_backend_config c provider_id =
    catch
      (do
        res ← do_request c "/dbmux.v1.Registry/ListProviders" (object [])
        providers ← array_or_throw (get res "providers")
        pure (found_or provider_id (find (serves provider_id) providers)))
      (λ _. pure (default_config provider_id))
