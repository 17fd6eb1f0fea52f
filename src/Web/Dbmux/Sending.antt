-- ===== src/Web/Dbmux/Sending.antt =====
-- What running SQL sends.
use arcops.Prelude.{
  ℕ, zero, suc, ◌≤◌, String, ◌≡◌, refl, sym, ap, ◌∙◌, true, false, none, List, [], ◌∷◌, ◌++◌, map,
  length, append-nil, append_assoc, Bool-cases, inl, inr, arith,
}
use arcops.Js.Json.{Json, truthy}
use arcops.Js.Exec.{Result, ok, err, continue, pure, ◌>>=◌}
use arcops.Js.World.{World, Storage, Request, read_json}
use arcops.Web.DbmuxSdk.{Client, request_of, query_payload, postgres_query}
use arcops.Web.Tenant.{Decoder, get_tenant_id}
use arcops.Web.Dbmux.{SqlResult, no_rows, shape, run_statements, active_provider, execute_sql}
use arcops.Web.Dbmux.Queries.{tables_sql}
use arcops.Web.Dbmux.Tables.{DbTableInfo, get_tables}
use arcops.Web.Sql.{split_sql_statements}

abbrev pub take : ℕ → List String → List String
take zero xs = []
take (suc n) [] = []
take (suc n) (x ∷ xs) = x ∷ take n xs

-- The second world has sent what the first has sent, and maybe more.
abbrev pub Extends : World → World → Type 0
Extends w v = (rest : List Request) × (v.sent ≡ w.sent ++ rest)

Extends-refl : (w : World) → Extends w w
Extends-refl w = ([], sym (append-nil w.sent))

shape-world : (v : Json) (w : World) → (shape v w).1 ≡ w
unfolding shape
shape-world v w = ground arith

module _ (c : Client) (provider : Json) where
  -- The request of one statement, with the storage at the time.
  abbrev pub statement_request : Storage → String → Request
  statement_request s stmt =
      request_of c s "/dbmux.v1.Postgres/Query" (query_payload provider stmt [])

  query-world :
      (w : World) (stmt : String)
      → (postgres_query c provider stmt none w).1.sent
        ≡ w.sent ++ statement_request w.local stmt ∷ []
  unfolding postgres_query read_json
  query-world w stmt = ground arith

  query-local :
      (w : World) (stmt : String) → (postgres_query c provider stmt none w).1.local ≡ w.local
  unfolding postgres_query read_json
  query-local w stmt = ground arith

  -- One request each for the first `n` statements, and for all of them if the run returns.
  abbrev pub Sends : World → List String → Result SqlResult × World → Type 0
  Sends w stmts done =
      ((n : ℕ) × ((n ≤ length stmts)
          × (done.1.sent ≡ w.sent ++ map (statement_request w.local) (take n stmts))))
      × ((v : SqlResult)
          → done.0 ≡ ok v
          → done.1.sent ≡ w.sent ++ map (statement_request w.local) stmts)

  Sends-nil : (w : World) (last : SqlResult) → Sends w [] (ok last, w)
  Sends-nil w last = ((0, (omega arith, sym (append-nil w.sent))), λ v e. sym (append-nil w.sent))

  Sends-stop :
      (w v : World) (stmt : String) (rest : List String) (r : Result SqlResult)
      → v.sent ≡ w.sent ++ statement_request w.local stmt ∷ []
      → ((a : SqlResult) → r ≡ ok a → rest ≡ [])
      → Sends w (stmt ∷ rest) (r, v)
  Sends-stop w v stmt rest r e stop = ((1, (omega arith, e)), λ a h. rw (stop a h) e)

  Sends-cons :
      (w v : World) (stmt : String) (rest : List String) (done : Result SqlResult × World)
      → v.sent ≡ w.sent ++ statement_request w.local stmt ∷ []
      → v.local ≡ w.local
      → Sends v rest done
      → Sends w (stmt ∷ rest) done
  Sends-cons w v stmt rest done e l ((n, (b, s)), all) =
      ((suc n, (omega arith, longer (take n rest) s)), λ a h. longer rest (all a h))
    where
      longer :
          (stmts : List String)
          → done.1.sent ≡ v.sent ++ map (statement_request v.local) stmts
          → done.1.sent
            ≡ w.sent ++ statement_request w.local stmt ∷ map (statement_request w.local) stmts
      longer stmts h =
          h
          ∙ (ap (λ l. v.sent ++ map (statement_request l) stmts) l
              ∙ (ap (λ xs. xs ++ map (statement_request w.local) stmts) e
                  ∙ append_assoc w.sent (statement_request w.local stmt ∷ [])
                      (map (statement_request w.local) stmts)))

  -- What follows one statement, given that the statements after it send as they should.
  module _ (w : World) (stmt : String) (rest : List String)
      (ih : (a : SqlResult) (v : World) → Sends v rest (run_statements c provider a rest v)) where
    after_shape :
        (r : Result SqlResult) (v : World)
        → v.sent ≡ w.sent ++ statement_request w.local stmt ∷ []
        → v.local ≡ w.local
        → Sends w (stmt ∷ rest) (continue (λ a. run_statements c provider a rest) (r, v))
    after_shape (ok a) v e l =
        Sends-cons w v stmt rest (run_statements c provider a rest v) e l (ih a v)
    after_shape (err x) v e l = Sends-stop w v stmt rest (err x) e (λ a h. cc)

    after_query :
        (r : Result Json) (v : World)
        → v.sent ≡ w.sent ++ statement_request w.local stmt ∷ []
        → v.local ≡ w.local
        → Sends w
            (stmt ∷ rest)
            (continue (λ res. shape res >>= (λ a. run_statements c provider a rest)) (r, v))
    after_query (ok res) v e l =
        let same = shape-world res v in
        after_shape (shape res v).0 (shape res v).1 (ap (λ u. u.sent) same ∙ e)
          (ap (λ u. u.local) same ∙ l)
    after_query (err x) v e l = Sends-stop w v stmt rest (err x) e (λ a h. cc)

  run_statements-Sends :
      (last : SqlResult) (stmts : List String) (w : World)
      → Sends w stmts (run_statements c provider last stmts w)
  unfolding run_statements
  run_statements-Sends last [] w = Sends-nil w last
  run_statements-Sends last (stmt ∷ rest) w =
      after_query w stmt rest (λ a v. run_statements-Sends a rest v)
        (postgres_query c provider stmt none w).0 (postgres_query c provider stmt none w).1
        (query-world w stmt) (query-local w stmt)

  after_last_shape :
      (r : Result SqlResult) (v : World)
      → (continue (λ a. run_statements c provider a []) (r, v)).1 ≡ v
  unfolding run_statements
  after_last_shape (ok a) v = refl
  after_last_shape (err x) v = refl

  after_last :
      (r : Result Json) (v : World)
      → (continue (λ res. shape res >>= (λ a. run_statements c provider a [])) (r, v)).1 ≡ v
  unfolding run_statements
  after_last (ok res) v = after_last_shape (shape res v).0 (shape res v).1 ∙ shape-world res v
  after_last (err x) v = refl

  run_statements-one :
      (last : SqlResult) (stmt : String) (w : World)
      → (run_statements c provider last (stmt ∷ []) w).1.sent
        ≡ w.sent ++ statement_request w.local stmt ∷ []
  unfolding run_statements
  run_statements-one last stmt w =
      ap (λ u. u.sent)
        (after_last (postgres_query c provider stmt none w).0
          (postgres_query c provider stmt none w).1)
      ∙ query-world w stmt

module _ (d : Decoder) (c : Client) (sql : String) (provider : Json) (w : World) where
  -- With no provider, neither given nor stored, `executeSQL` sends nothing and returns no rows.
  execute_sql-no_provider :
      truthy (active_provider d c provider w) ≡ false
      → execute_sql d c sql provider w ≡ (ok no_rows, w)
  unfolding execute_sql
  execute_sql-no_provider h = rw h refl

  pub execute_sql-Sends :
      truthy (active_provider d c provider w) ≡ true
      → Sends c
          (active_provider d c provider w)
          w
          (split_sql_statements sql)
          (execute_sql d c sql provider w)
  unfolding execute_sql
  execute_sql-Sends h =
      rw h (
        run_statements-Sends c (active_provider d c provider w) no_rows (split_sql_statements sql)
          w)

  -- With a provider, a text of one statement is sent in one request.
  pub execute_sql-one_statement :
      (stmt : String)
      → split_sql_statements sql ≡ stmt ∷ []
      → truthy (active_provider d c provider w) ≡ true
      → (execute_sql d c sql provider w).1.sent
        ≡ w.sent ++ statement_request c (active_provider d c provider w) w.local stmt ∷ []
  unfolding execute_sql
  execute_sql-one_statement stmt one h =
      rw (h, one) (run_statements-one c (active_provider d c provider w) no_rows stmt w)

  -- Running SQL takes back no request.
  pub execute_sql-Extends : Extends w (execute_sql d c sql provider w).1
  execute_sql-Extends = elim (Bool-cases (truthy (active_provider d c provider w))) [
    | inl e ↦ let ((n, (b, s)), all) = execute_sql-Sends e in (_, s)
    | inr e ↦ rw (execute_sql-no_provider e) (Extends-refl w)
  ]

module _ (d : Decoder) (c : Client) where
  Extends-listed :
      (w : World) (f : SqlResult → List DbTableInfo) (r : Result SqlResult) (v : World)
      → Extends w v
      → Extends w (continue (λ res. pure (f res)) (r, v)).1
  Extends-listed w f (ok res) v h = h
  Extends-listed w f (err x) v h = h

  -- Listing the tables takes back no request.
  pub get_tables-Extends : (w : World) → Extends w (get_tables d c w).1
  unfolding get_tables
  get_tables-Extends w = elim (Bool-cases (truthy (get_tenant_id d w.local))) [
    | inl e ↦ rw e (
        Extends-listed w _ (execute_sql d c tables_sql (get_tenant_id d w.local) w).0
          (execute_sql d c tables_sql (get_tenant_id d w.local) w).1
          (execute_sql-Extends d c tables_sql (get_tenant_id d w.local) w))
    | inr e ↦ rw e (Extends-refl w)
  ]
