-- ===== src/Sdk/Init.antt =====
-- `init`: the client learns the server's engines from the header of the first response, and checks
-- later calls against them.
use Prim.Native.Nat.{◌^◌}
use arcops.Prelude.{
  ℕ, suc, ◌/◌, ◌%◌, ◌<◌, String, ◌≡◌, ap, none, some, List, [], ◌∷◌, ◌++◌, arith, eqb,
  if◌then◌else◌,
}
use arcops.Js.Text.{decimal}
use arcops.Js.Json.{object}
use arcops.Js.World.{Response, Reply, answer, fetch, read_json}
use arcops.Js.World.WebStorage.{get_item}
use arcops.Js.World.Object.{Object}
use arcops.Sdk.Mask.{ℤ, pos}
use arcops.Sdk.Mask.Bits.{has_bit-digit}
use arcops.Sdk.Mask.RoundTrip.{parse_int-decimal, decimal-ne_empty}
use arcops.Sdk.Client.{Client, synced_mask, request_of, do_request, has_capability, init}
use arcops.Sdk.Call.{Call, run}
use arcops.Sdk.Call.Wire.{requires, path_of, payload_of}
use arcops.Sdk.Call.Sending.{admits, run-sent, do_request-frame}

synced_mask-decimal : (old : ℤ) (n : ℕ) → synced_mask old (some (decimal n)) ≡ pos n
unfolding synced_mask
synced_mask-decimal old n = rw (decimal-ne_empty n) (rw parse_int-decimal)

module _ (o : Object Client) (over_http : o.this.transport ≡ none) (r : Response)
    (rest : List Reply) (replies : o.world.replies ≡ answer r ∷ rest) (n : ℕ)
    (header : get_item r.headers "X-DBMux-Capabilities" ≡ some (decimal n)) where
  -- Whatever the status of the response, `init` stores the mask that its header carries.
  init-mask : (init o).1.this.capabilities_mask ≡ pos n
  unfolding init do_request fetch read_json
  init-mask = ground (arith, synced_mask-decimal o.this.capabilities_mask n)

init-frame : (o : Object Client) → o.this.transport ≡ none → (init o).1.this.transport ≡ none
unfolding init
init-frame o h = ground (
  arith,
  ap (λ (c : Client). c.transport)
      (do_request-frame "/dbmux.v1.Registry/ListProviders" (object []) o h),
)

-- After `init` against a server that reports a mask from 1 to 63, a call of the engine of bit `k` is
-- sent, as one request, exactly when digit `k` of the mask is 1.
pub init-gating :
    (o : Object Client)
    → o.this.transport ≡ none
    → (r : Response) (rest : List Reply) → o.world.replies ≡ answer r ∷ rest
    → (m k : ℕ) → m < 63
    → k < 6
    → get_item r.headers "X-DBMux-Capabilities" ≡ some (decimal (suc m))
    → (c : Call) (message : String) → requires c ≡ some (2 ^ k, message)
    → (run c (init o).1).1.world.sent
      ≡ (init o).1.world.sent
        ++ (if eqb (suc m / 2 ^ k % 2) 1
            then request_of (init o).1.this (path_of c) (payload_of c) ∷ []
            else [])
unfolding has_capability
init-gating o h r rest e m k hm hk header c message need =
    let open_for : admits (init o).1.this (requires c) ≡ eqb (suc m / 2 ^ k % 2) 1 =
      rw need (rw (init-mask o h r rest e (suc m) header) (has_bit-digit m k hm hk)) in
    rw (run-sent (init o).1 (init-frame o h) c) (rw open_for)
