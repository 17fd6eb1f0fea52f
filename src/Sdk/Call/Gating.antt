-- ===== src/Sdk/Call/Gating.antt =====
-- Calls of an engine that the server does not have.
use arcops.Prelude.{ℕ, String, ◌≡◌, false, some}
use arcops.Js.Exec.{err}
use arcops.Js.World.Object.{Object}
use arcops.Sdk.Client.{Client, dbmux_error, has_capability}
use arcops.Sdk.Gate.{gated}
use arcops.Sdk.Call.{Call, run}
use arcops.Sdk.Call.Wire.{requires, run-checked}

-- A call of an engine whose capability bit is off throws a DBMuxError with that engine's message and
-- leaves the client and the world, the requests sent among it, as they were.
pub run-fails_fast :
    (c : Call) (o : Object Client) (bit : ℕ) (message : String)
    → requires c ≡ some (bit, message)
    → has_capability o.this bit ≡ false
    → run c o ≡ (err (dbmux_error message), o)
unfolding gated
run-fails_fast c o bit message e off = rw (run-checked, e) (rw off)
