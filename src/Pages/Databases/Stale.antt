-- ===== src/Pages/Databases/Stale.antt =====
-- What the open settings of a database show after its mode is switched there.
use arcops.Js.World.Object.{Object}
use arcops.Pages.Databases.{Database, Panel, card_click}

abbrev pub clicked : Database → Object Panel → Object Panel
clicked db o = record o { this = card_click db o.this }
