-- ===== src/Sdk/Call/Sending.antt =====
-- What a call sends over the network, and what it leaves of the client.
use arcops.Prelude.{
  ℕ, String, ◌≡◌, refl, Bool, true, Option, none, some, List, [], ◌∷◌, ◌++◌, arith, if◌then◌else◌,
  append-nil, Bool-cases, inl, inr,
}
use arcops.Js.Json.{Json}
use arcops.Js.World.{fetch, read_json, Reply, failed, answer}
use arcops.Js.World.Object.{Object}
use arcops.Sdk.Mask.{ℤ}
use arcops.Sdk.Client.{Client, request_of, do_request, has_capability}
use arcops.Sdk.Gate.{gated}
use arcops.Sdk.Call.{Call, run}
use arcops.Sdk.Call.Wire.{requires, path_of, payload_of, checked, run-checked}

-- The client but for its mask.
abbrev pub masked : Client → ℤ → Client
masked c m = record c { capabilities_mask = m }

module _ (path : String) (payload : Json) where
  module _ (o : Object Client) (over_http : o.this.transport ≡ none) where
    do_request-sent_by :
        (rs : List Reply)
        → o.world.replies ≡ rs
        → (do_request path payload o).1.world.sent
          ≡ o.world.sent ++ request_of o.this path payload ∷ []
    unfolding do_request fetch read_json
    do_request-sent_by [] e = ground arith
    do_request-sent_by (failed x ∷ rs) e = ground arith
    do_request-sent_by (answer r ∷ rs) e = ground arith

    pub do_request-sent :
        (do_request path payload o).1.world.sent
        ≡ o.world.sent ++ request_of o.this path payload ∷ []
    do_request-sent = do_request-sent_by o.world.replies refl

    do_request-frame_by :
        (rs : List Reply)
        → o.world.replies ≡ rs
        → (do_request path payload o).1.this
          ≡ masked o.this (do_request path payload o).1.this.capabilities_mask
    unfolding do_request fetch read_json
    do_request-frame_by [] e = ground arith
    do_request-frame_by (failed x ∷ rs) e = ground arith
    do_request-frame_by (answer r ∷ rs) e = ground arith

    pub do_request-frame :
        (do_request path payload o).1.this
        ≡ masked o.this (do_request path payload o).1.this.capabilities_mask
    do_request-frame = do_request-frame_by o.world.replies refl

-- Whether the client lets a call through.
abbrev pub admits : Client → Option (ℕ × String) → Bool
admits c none = true
admits c (some (bit, message)) = has_capability c bit

module _ (o : Object Client) (over_http : o.this.transport ≡ none) where
  checked-sent :
      (need : Option (ℕ × String)) (path : String) (payload : Json)
      → (checked need path payload o).1.world.sent
        ≡ o.world.sent ++ (if admits o.this need then request_of o.this path payload ∷ [] else [])
  unfolding gated
  checked-sent none path payload = do_request-sent path payload o over_http
  checked-sent (some (bit, message)) path payload = elim (Bool-cases (has_capability o.this bit)) [
    | inl e ↦ rw e (do_request-sent path payload o over_http)
    | inr e ↦ rw e (rw append-nil)
  ]

  checked-frame :
      (need : Option (ℕ × String)) (path : String) (payload : Json)
      → (checked need path payload o).1.this
        ≡ masked o.this (checked need path payload o).1.this.capabilities_mask
  unfolding gated
  checked-frame none path payload = do_request-frame path payload o over_http
  checked-frame (some (bit, message)) path payload = elim (Bool-cases (has_capability o.this bit)) [
    | inl e ↦ rw e (do_request-frame path payload o over_http)
    | inr e ↦ rw e refl
  ]

  -- A client without a transport sends exactly one request for a call that it admits, with the
  -- call's path and payload and the client's own URL and headers, and no request for any other.
  pub run-sent :
      (c : Call)
      → (run c o).1.world.sent
        ≡ o.world.sent
          ++ (if admits o.this (requires c)
              then request_of o.this (path_of c) (payload_of c) ∷ []
              else [])
  run-sent c = rw run-checked (checked-sent (requires c) (path_of c) (payload_of c))

  -- A call changes nothing of the client but the capability mask.
  pub run-frame : (c : Call) → (run c o).1.this ≡ masked o.this (run c o).1.this.capabilities_mask
  run-frame c = rw run-checked (checked-frame (requires c) (path_of c) (payload_of c))
