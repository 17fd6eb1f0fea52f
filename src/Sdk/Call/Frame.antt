-- ===== src/Sdk/Call/Frame.antt =====
-- Clients over their life: from the constructor, after any calls.
use arcops.Prelude.{◌≡◌, List, [], ◌∷◌}
use arcops.Js.Json.{Json}
use arcops.Js.World.{World}
use arcops.Js.World.Object.{Object}
use arcops.Sdk.Client.{Client}
use arcops.Sdk.Call.{Call, run}
use arcops.Sdk.Call.Sending.{masked}

-- The calls of a program, one after the other; a caught error does not stop it.
abbrev pub run_all : List Call → Object Client → Object Client
run_all [] o = o
run_all (c ∷ cs) o = run_all cs (run c o).1

-- A client that differs from another in the mask alone.
abbrev pub SameButMask : Client → Client → Type 0
SameButMask a b = b ≡ masked a b.capabilities_mask
