-- ===== src/Web/Api/Sending.antt =====
-- What `apiFetch` sends, and how it ends.
use arcops.Prelude.{String, ◌≡◌, none, some, List, [], ◌∷◌, ◌++◌, arith, if◌then◌else◌}
use arcops.Js.Exec.{ok, err, plain_error}
use arcops.Js.World.{World, Response, Reply, answer, is_ok, syntax_error}
use arcops.Web.Tenant.{Decoder}
use arcops.Web.Api.{Options, request_of, refusal, api_fetch}

module _ (d : Decoder) (gateway endpoint : String) (options : Options) where
  -- One request is sent, and `localStorage` stays as it was. A response that is not ok throws the
  -- message of its body or the default one; one that is ok gives its JSON, or throws if it has none.
  api_fetch-outcome :
      (w : World) (r : Response) (rest : List Reply)
      → w.replies ≡ answer r ∷ rest
      → ((api_fetch d gateway endpoint options w).0 ≡ (
          if is_ok r
          then elim r.json [ none ↦ err syntax_error | some v ↦ ok v ]
          else err (plain_error (refusal d r))))
        × (((api_fetch d gateway endpoint options w).1.sent
              ≡ w.sent ++ request_of gateway endpoint options w.local ∷ [])
            × ((api_fetch d gateway endpoint options w).1.local ≡ w.local))
  unfolding api_fetch
  api_fetch-outcome w r rest h = ground arith
