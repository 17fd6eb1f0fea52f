-- ===== src/Sdk/SubClients/PubSub.antt =====
-- `PubSubSubClient` of dbmux/sdk/ts/src/index.ts.
use arcops.Prelude.{String, [], ◌∷◌}
use arcops.Js.Json.{Json, object, str}
use arcops.Js.World.Object.{Method}
use arcops.Sdk.Client.{Client, do_request}

unfoldable pub publish : String → String → Method Client Json
publish topic payload =
    do_request "/dbmux.v1.PubSub/Publish"
      (object (("topic", str topic) ∷ ("payload", str payload) ∷ []))
