-- ===== src/Pages/Tables/Form.antt =====
-- The columns of the form for a new table, whatever is done on the page.
use arcops.Prelude.{
  String, ◌≡◌, refl, ap, ◌∙◌, ◌⊎◌, true, false, List, [], ◌∷◌, ◌++◌, length, All, arith, leb,
  eq_iff, inl, inr, ◌==◌, if◌then◌else◌,
}
use arcops.Prelude.Steps.{Reaches, Reaches-keeps}
use arcops.Js.World.Object.{Object}
use arcops.Web.DbmuxSdk.{Client}
use arcops.Web.Tenant.{Decoder}
use arcops.Pages.Tables.{
  NewColumn, Page, Change, changed, first_columns, add_column, remove_column, change_column,
  fetch_tables, create_table, submit,
}
use arcops.Pages.Tables.Columns.{IsDistinct, remove_column-IsDistinct}
use arcops.Pages.Tables.View.{search, view_columns, close_columns, new_table, cancel, type_name}

-- At least one column, and no identifier twice.
abbrev pub IsForm : List NewColumn → Type 0
IsForm cs = IsDistinct cs × (leb 1 (length cs) ≡ true)

-- An identifier that no column has.
abbrev pub IsNew : String → List NewColumn → Type 0
IsNew id cs = All (λ c. (c.id == id) ≡ false) cs

All-append :
    (id : String) (cs ds : List NewColumn) → IsNew id cs → IsNew id ds → IsNew id (cs ++ ds)
All-append id [] ds h k = k
All-append id (c ∷ cs) ds (e, h) k = (e, All-append id cs ds h k)

differ : (id key : String) → (id == key) ≡ false → (key == id) ≡ false
differ id key h = ground (arith, eq_iff id key, eq_iff key id)

IsDistinct-append :
    (cs : List NewColumn) (c : NewColumn)
    → IsDistinct cs
    → IsNew c.id cs
    → IsDistinct (cs ++ c ∷ [])
IsDistinct-append [] c h k = (tt, tt)
IsDistinct-append (d ∷ cs) c (h, hs) (e, k) =
    (All-append d.id cs (c ∷ []) h (differ d.id c.id e, tt), IsDistinct-append cs c hs k)

add_column-IsForm :
    (now : String) (cs : List NewColumn) → IsNew now cs → IsForm cs → IsForm (add_column now cs)
unfolding add_column
add_column-IsForm now [] k h = ((tt, tt), refl)
add_column-IsForm now (c ∷ cs) k h = (IsDistinct-append (c ∷ cs) _ h.0 k, ground arith)

-- A change leaves the identifiers.
changed-id :
    (id : String) (change : Change) (c : NewColumn)
    → (if c.id == id then changed change c else c).id ≡ c.id
changed-id id (Change.set_name s) c = ground arith
changed-id id (Change.set_kind s) c = ground arith
changed-id id (Change.set_pk b) c = ground arith
changed-id id (Change.set_nullable b) c = ground arith

change_column-IsNew :
    (id key : String) (change : Change) (cs : List NewColumn)
    → IsNew key cs
    → IsNew key (change_column id change cs)
unfolding change_column
change_column-IsNew id key change [] h = tt
change_column-IsNew id key change (c ∷ cs) (e, h) =
    (ap (λ x. x == key) (changed-id id change c) ∙ e, change_column-IsNew id key change cs h)

change_column-IsDistinct :
    (id : String) (change : Change) (cs : List NewColumn)
    → IsDistinct cs
    → IsDistinct (change_column id change cs)
unfolding change_column
change_column-IsDistinct id change [] h = tt
change_column-IsDistinct id change (c ∷ cs) (h, hs) = (
  rw (changed-id id change c) (change_column-IsNew id c.id change cs h),
  change_column-IsDistinct id change cs hs,
)

change_column-IsForm :
    (id : String) (change : Change) (cs : List NewColumn)
    → IsForm cs
    → IsForm (change_column id change cs)
unfolding change_column
change_column-IsForm id change [] h = h
change_column-IsForm id change (c ∷ cs) h =
    (change_column-IsDistinct id change (c ∷ cs) h.0, ground arith)

first_columns-IsForm : IsForm first_columns
first_columns-IsForm = (((refl, tt), (tt, tt)), refl)

module _ (d : Decoder) (client : Client) where
  fetch_tables-new_columns :
      (o : Object Page) → (fetch_tables d client o).1.this.new_columns ≡ o.this.new_columns
  unfolding fetch_tables
  fetch_tables-new_columns o = ground arith

  submit-new_columns :
      (o : Object Page)
      → ((submit d client o).1.this.new_columns ≡ o.this.new_columns)
        ⊎ ((submit d client o).1.this.new_columns ≡ first_columns)
  unfolding submit create_table
  submit-new_columns o = grind (arith, fetch_tables-new_columns)

  submit-IsForm :
      (o : Object Page) → IsForm o.this.new_columns → IsForm (submit d client o).1.this.new_columns
  submit-IsForm o h = elim (submit-new_columns o) [
    | inl e ↦ rw (e, IsForm) h
    | inr e ↦ rw (e, IsForm) first_columns-IsForm
  ]

  abbrev with_columns : (List NewColumn → List NewColumn) → Object Page → Object Page
  with_columns f o = record o { this = record o.this { new_columns = f o.this.new_columns } }

  -- What the user and the browser may do, one thing after the other. A column is added under the time
  -- of the click, which no column of the form was added at.
  pub data Step : Object Page → Object Page → Type 0 where
    loads : {o : Object Page} → Step o (fetch_tables d client o).1
    searches : {o : Object Page} (s : String) → Step o (record o { this = search s o.this })
    views :
        {o : Object Page} (name : String) → Step o (record o { this = view_columns name o.this })
    closes : {o : Object Page} → Step o (record o { this = close_columns o.this })
    opens_form : {o : Object Page} → Step o (record o { this = new_table o.this })
    cancels : {o : Object Page} → Step o (record o { this = cancel o.this })
    names : {o : Object Page} (s : String) → Step o (record o { this = type_name s o.this })
    adds :
        {o : Object Page} (now : String)
        → IsNew now o.this.new_columns
        → Step o (with_columns (add_column now) o)
    removes : {o : Object Page} (id : String) → Step o (with_columns (remove_column id) o)
    changes :
        {o : Object Page} (id : String) (change : Change)
        → Step o (with_columns (change_column id change) o)
    submits : {o : Object Page} → Step o (submit d client o).1

  Step-IsForm :
      (o q : Object Page) → Step o q → IsForm o.this.new_columns → IsForm q.this.new_columns
  Step-IsForm o _ Step.loads h = rw (fetch_tables-new_columns o, IsForm) h
  Step-IsForm o _ (Step.searches s) h = h
  Step-IsForm o _ (Step.views name) h = h
  Step-IsForm o _ Step.closes h = h
  Step-IsForm o _ Step.opens_form h = h
  Step-IsForm o _ Step.cancels h = h
  Step-IsForm o _ (Step.names s) h = h
  Step-IsForm o _ (Step.adds now k) h = add_column-IsForm now o.this.new_columns k h
  Step-IsForm o _ (Step.removes id) h = remove_column-IsDistinct id o.this.new_columns h.0 h.1
  Step-IsForm o _ (Step.changes id change) h = change_column-IsForm id change o.this.new_columns h
  Step-IsForm o _ Step.submits h = submit-IsForm o h

  -- Whatever is done on the page, and whatever the network and the server answer: a form with at least
  -- one column, and with no two columns of one identifier, stays one, if each column is added at a time
  -- that is no identifier of the form.
  pub Reaches-IsForm :
      {o q : Object Page} → IsForm o.this.new_columns → Reaches Step o q → IsForm q.this.new_columns
  Reaches-IsForm h run = Reaches-keeps Step (λ o. IsForm o.this.new_columns) Step-IsForm run h
