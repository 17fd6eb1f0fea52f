-- ===== src/Sdk/Gate.antt =====
-- The capability check that each method of an engine's sub-client begins with.
use arcops.Prelude.{ℕ, String, not, if◌then◌else◌}
use arcops.Js.Json.{Json}
use arcops.Js.Exec.{throw, ◌>>=◌}
use arcops.Js.World.Object.{Method, read}
use arcops.Sdk.Client.{Client, dbmux_error, has_capability, do_request}

-- `if (!this.client.hasCapability(bit)) throw new DBMuxError(message); return doRequest(…)`
unfoldable pub gated : ℕ → String → String → Json → Method Client Json
gated bit message path payload = do
  c ← read (λ c. c)
  if not (has_capability c bit) then throw (dbmux_error message) else do_request path payload
