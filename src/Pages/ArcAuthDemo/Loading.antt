-- ===== src/Pages/ArcAuthDemo/Loading.antt =====
-- When the demo stops loading.
use arcops.Prelude.{
  ℕ, zero, suc, length, is_some, String, ◌≡◌, refl, Bool, true, false, not, ◌||◌, Option, none,
  List, [], ◌∷◌, ◌++◌, arith, All, All-append, Bool-cases, inl, inr, ◌==◌,
}
use arcops.Prelude.Steps.{Reaches, Reaches-keeps}
use arcops.Js.Json.Stringify.{stringify}
use arcops.Pages.ArcAuthDemo.{
  Demo, Timer, to_sent, to_done, Platform, claims, handle_send, handle_verify, fire, run_out,
  set_email, set_code, reset,
}

abbrev pub is_empty : List Timer → Bool
is_empty [] = true
is_empty (t ∷ ts) = false

-- While the page loads there is a timer that will end it.
abbrev pub IsTimed : Demo → Type 0
IsTimed p = (not p.loading || not (is_empty p.timers)) ≡ true

-- A number of timers run out, one after the other.
abbrev pub run_out_all : Platform → ℕ → Demo → Demo
run_out_all platform zero p = p
run_out_all platform (suc n) p = run_out_all platform n (run_out platform p)

is_empty-append : (ts : List Timer) (t : Timer) → is_empty (ts ++ t ∷ []) ≡ false
is_empty-append [] t = refl
is_empty-append (u ∷ ts) t = refl

abbrev encoded : Platform → String → Option String
encoded platform email = platform.btoa (stringify (claims platform.now email))

-- `btoa` takes the claims of an email, as it does where the email has no character outside Latin-1.
abbrev pub IsTaken : Platform → String → Type 0
IsTaken platform email = is_some (encoded platform email) ≡ true

-- A timer whose callback does not throw.
abbrev pub IsSafe : Platform → Timer → Type 0
IsSafe platform to_sent = Unit
IsSafe platform (to_done email) = IsTaken platform email

handle_verify-IsTimed : (p : Demo) → IsTimed (handle_verify p)
unfolding handle_verify
handle_verify-IsTimed p = ground (arith, is_empty-append p.timers (to_done p.email))

fire-loading :
    (platform : Platform) (t : Timer) (p : Demo)
    → IsSafe platform t
    → ((fire platform t p).loading ≡ false)
      × (((fire platform t p).timers ≡ p.timers) × ((fire platform t p).email ≡ p.email))
unfolding fire
fire-loading platform to_sent p safe = (refl, (refl, refl))
fire-loading platform (to_done email) p safe = ground (arith, safe)

abbrev with_timers : List Timer → Demo → Demo
with_timers ts p = record p { timers = ts }

run_out-nil : (platform : Platform) (p : Demo) → p.timers ≡ [] → run_out platform p ≡ p
unfolding run_out
run_out-nil platform p h = rw h refl

run_out-cons :
    (platform : Platform) (t : Timer) (ts : List Timer) (p : Demo)
    → p.timers ≡ t ∷ ts
    → run_out platform p ≡ fire platform t (with_timers ts p)
unfolding run_out
run_out-cons platform t ts p h = rw h refl

loading-IsTimed : (p : Demo) → p.loading ≡ false → IsTimed p
loading-IsTimed p h = ground (arith, h)

run_out_all-ends :
    (platform : Platform) (ts : List Timer) (p : Demo)
    → All (IsSafe platform) ts
    → IsTimed p
    → p.timers ≡ ts
    → ((run_out_all platform (length ts) p).loading ≡ false)
      × ((run_out_all platform (length ts) p).timers ≡ [])
run_out_all-ends platform [] p safe h e = ground (arith, h, e)
run_out_all-ends platform (t ∷ ts) p (safe, rest) h e =
    let fired = fire-loading platform t (with_timers ts p) safe in
    rw (run_out-cons platform t ts p e, run_out_all)
      (run_out_all-ends platform ts (fire platform t (with_timers ts p)) rest
        (loading-IsTimed (fire platform t (with_timers ts p)) fired.0) fired.1.0)

-- What the user may do, and a timer that runs out. What is typed is an email that `btoa` takes.
pub data Step (platform : Platform) : Demo → Demo → Type 0 where
  sends : {p : Demo} → Step platform p (handle_send p)
  verifies : {p : Demo} → Step platform p (handle_verify p)
  types : {p : Demo} (email : String) → IsTaken platform email → Step platform p (set_email email p)
  codes : {p : Demo} (code : String) → Step platform p (set_code code p)
  resets : {p : Demo} → Step platform p (reset p)
  runs_out : {p : Demo} → Step platform p (run_out platform p)

-- The page stops loading by itself, and no timer that is set or will be set throws.
abbrev pub IsReady : Platform → Demo → Type 0
IsReady platform p = IsTimed p × (IsTaken platform p.email × All (IsSafe platform) p.timers)

handle_send-IsReady :
    (platform : Platform) (p : Demo) → IsReady platform p → IsReady platform (handle_send p)
unfolding handle_send
handle_send-IsReady platform p (timed, (taken, safe)) = elim (Bool-cases (p.email == "")) [
  | inl e ↦ rw (e, IsReady, IsTimed) (timed, (taken, safe))
  | inr e ↦
      rw (e, IsReady, IsTimed)
        (
          ground (arith, is_empty-append p.timers to_sent),
          (taken, All-append (IsSafe platform) p.timers (to_sent ∷ []) safe (tt, tt)),
        )
]

handle_verify-IsReady :
    (platform : Platform) (p : Demo) → IsReady platform p → IsReady platform (handle_verify p)
unfolding handle_verify
handle_verify-IsReady platform p (timed, (taken, safe)) = (
  handle_verify-IsTimed p,
  (taken, All-append (IsSafe platform) p.timers (to_done p.email ∷ []) safe (taken, tt)),
)

run_out-IsReady :
    (platform : Platform) (p : Demo) → IsReady platform p → IsReady platform (run_out platform p)
run_out-IsReady platform p (timed, (taken, safe)) = go p.timers refl safe
  where
    go :
        (ts : List Timer)
        → p.timers ≡ ts
        → All (IsSafe platform) ts
        → IsReady platform (run_out platform p)
    go [] e h = rw (run_out-nil platform p e) (timed, (taken, safe))
    go (t ∷ ts) e (h, hs) =
        let (loading, (timers, email)) = fire-loading platform t (with_timers ts p) h in
        rw (run_out-cons platform t ts p e) (
          loading-IsTimed (fire platform t (with_timers ts p)) loading,
          (rw email taken, rw timers hs),
        )

Step-IsReady :
    (platform : Platform) (p q : Demo) → Step platform p q → IsReady platform p → IsReady platform q
Step-IsReady platform p q sends h = handle_send-IsReady platform p h
Step-IsReady platform p q verifies h = handle_verify-IsReady platform p h
Step-IsReady platform p q (types email taken) h = (h.0, (taken, h.1.1))
Step-IsReady platform p q (codes code) h = h
Step-IsReady platform p q resets h = h
Step-IsReady platform p q runs_out h = run_out-IsReady platform p h

-- If `btoa` takes the claims of every email that is typed: whatever is clicked and typed, once every
-- timer that is set has run out, the page is not loading and has no timer left. At the start it does not
-- load without a timer, and `btoa` takes the email of the page and those of its timers.
pub Reaches-ends :
    {p q : Demo} (platform : Platform)
    → Reaches (Step platform) p q
    → IsReady platform p
    → ((run_out_all platform (length q.timers) q).loading ≡ false)
      × ((run_out_all platform (length q.timers) q).timers ≡ [])
Reaches-ends {q = q} platform run h =
    let (timed, (taken, safe)) =
      Reaches-keeps (Step platform) (IsReady platform) (Step-IsReady platform) run h in
    run_out_all-ends platform q.timers q safe timed refl

-- If `btoa` throws for the email, verifying leaves the page loading, with no timer that would end it.
handle_verify-stuck :
    (platform : Platform) (p : Demo)
    → p.timers ≡ []
    → encoded platform p.email ≡ none
    → ((run_out platform (handle_verify p)).loading ≡ true)
      × ((run_out platform (handle_verify p)).timers ≡ [])
unfolding handle_verify run_out fire
handle_verify-stuck platform p h e = rw h (ground (arith, e))
