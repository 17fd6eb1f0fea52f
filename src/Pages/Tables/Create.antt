-- ===== src/Pages/Tables/Create.antt =====
-- What `handleCreateSubmit` sends for a new table.
use Prim.Native.String.{[], ◌∷◌}
use arcops.Prelude.{[], ◌∷◌}
use arcops.Js.Json.{undefined}
use arcops.Js.World.{Request}
use arcops.Js.World.Object.{Object}
use arcops.Web.DbmuxSdk.{Client}
use arcops.Web.Tenant.{Decoder}
use arcops.Web.Dbmux.{active_provider}
use arcops.Web.Dbmux.Sending.{statement_request}
use arcops.Pages.Tables.{Page}
use arcops.Pages.Tables.Statement.{statement_of}

module _ (d : Decoder) (client : Client) where
  -- The request for the table of the form, from the storage at the time.
  abbrev pub create_request : Object Page → Request
  create_request o =
      statement_request client (active_provider d client undefined o.world) o.world.local
        (statement_of o.this.new_table_name o.this.new_columns)
