-- ===== src/Sdk/SubClients/Queue.antt =====
-- `QueueSubClient` of dbmux/sdk/ts/src/index.ts.
use arcops.Prelude.{String, [], ◌∷◌}
use arcops.Js.Json.{Json, object, str}
use arcops.Js.World.Object.{Method}
use arcops.Sdk.Client.{Client, do_request}

unfoldable pub enqueue : String → String → Method Client Json
enqueue queue_name payload =
    do_request "/dbmux.v1.Queue/Enqueue"
      (object (("queue_name", str queue_name) ∷ ("payload", str payload) ∷ []))

unfoldable pub dequeue : String → Method Client Json
dequeue queue_name =
    do_request "/dbmux.v1.Queue/Dequeue" (object (("queue_name", str queue_name) ∷ []))

unfoldable pub size : String → Method Client Json
size queue_name = do_request "/dbmux.v1.Queue/Size" (object (("queue_name", str queue_name) ∷ []))

unfoldable pub peek : String → Method Client Json
peek queue_name = do_request "/dbmux.v1.Queue/Peek" (object (("queue_name", str queue_name) ∷ []))

unfoldable pub purge : String → Method Client Json
purge queue_name = do_request "/dbmux.v1.Queue/Purge" (object (("queue_name", str queue_name) ∷ []))
