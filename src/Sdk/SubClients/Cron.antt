-- ===== src/Sdk/SubClients/Cron.antt =====
-- `CronSubClient` of dbmux/sdk/ts/src/index.ts.
use arcops.Prelude.{String, [], ◌∷◌}
use arcops.Js.Json.{Json, object, str}
use arcops.Js.World.Object.{Method}
use arcops.Sdk.Client.{Client, do_request}

unfoldable pub register : String → String → String → Method Client Json
register cron_id schedule payload_json = do_request "/dbmux.v1.Cron/RegisterCron" (
    object (
      ("cron_id", str cron_id)
      ∷ ("schedule", str schedule)
      ∷ ("payload_json", str payload_json)
      ∷ []))

unfoldable pub trigger : String → Method Client Json
trigger cron_id = do_request "/dbmux.v1.Cron/TriggerCron" (object (("cron_id", str cron_id) ∷ []))

unfoldable pub list : Method Client Json
list = do_request "/dbmux.v1.Cron/ListCrons" (object ([]))

unfoldable pub delete : String → Method Client Json
delete cron_id = do_request "/dbmux.v1.Cron/DeleteCron" (object (("cron_id", str cron_id) ∷ []))
