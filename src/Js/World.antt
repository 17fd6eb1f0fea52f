-- ===== src/Js/World.antt =====
-- What the program sees of the browser and of the network: storage, the cookie, dispatched events,
-- timers, pages gone to, alerts, the requests sent, and the replies still to come.
pub mod WebStorage
pub mod Session
pub mod Object
pub mod Sample
use arcops.Prelude.{
  ℕ, ◌+◌, ◌-◌, String, Bool, ◌&&◌, Option, none, some, List, [], ◌∷◌, ◌++◌, leb, ltb, if◌then◌else◌,
}
use arcops.Js.Json.{Json}
use arcops.Js.Exec.{Error, Result, ok, err, Exec, pure, throw, modify}
pub use WebStorage.{Storage}

pub record Request : Type 0 where
  pub url : String
  pub method : String
  pub headers : List (String × String)
  -- `credentials: "include"`
  pub credentials : Bool
  -- the value that `JSON.stringify` is given, or the contents of a file
  pub body : Option Json

pub record Response : Type 0 where
  pub status : ℕ
  pub status_text : String
  pub headers : Storage
  pub text : String
  -- the text as a value, if it is JSON
  pub json : Option Json

-- What the network does with a request: the promise of `fetch` is rejected, or there is a response.
pub data Reply : Type 0 where
  failed : Error → Reply
  answer : Response → Reply

pub record World : Type 0 where
  pub local : Storage
  pub session : Storage
  pub cookie : String
  pub events : List String
  pub timers : ℕ
  pub visited : List String
  pub alerts : List String
  pub sent : List Request
  pub replies : List Reply

abbrev pub Io : Type 0 → Type 0
Io A = Exec World A

-- `response.ok`
abbrev pub is_ok : Response → Bool
is_ok r = leb 200 r.status && ltb r.status 300

abbrev pub network_error : Error
network_error = record { name = "TypeError"; message = "Failed to fetch" }

abbrev pub syntax_error : Error
syntax_error = record { name = "SyntaxError"; message = "Unexpected token" }

-- What the next reply makes of the promise. With no reply left the network is down.
abbrev pub next_reply : List Reply → Result Response
next_reply [] = err network_error
next_reply (failed e ∷ rest) = err e
next_reply (answer r ∷ rest) = ok r

abbrev pub later : List Reply → List Reply
later [] = []
later (reply ∷ rest) = rest

unfoldable pub fetch : Request → Io Response
fetch req w =
    (next_reply w.replies, record w { sent = w.sent ++ req ∷ []; replies = later w.replies })

-- `await response.json()`
json_or_throw : Option Json → Io Json
json_or_throw none = throw syntax_error
json_or_throw (some v) = pure v

unfoldable pub read_json : Response → Io Json
unfolding json_or_throw
read_json r = json_or_throw r.json

abbrev pub set_timeout : Io Unit
set_timeout = modify λ w. record w { timers = w.timers + 1 }

abbrev pub clear_timeout : World → World
clear_timeout w = record w { timers = w.timers - 1 }

abbrev pub dispatch_event : String → Io Unit
dispatch_event e = modify λ w. record w { events = w.events ++ e ∷ [] }

abbrev pub navigate : String → Io Unit
navigate path = modify λ w. record w { visited = w.visited ++ path ∷ [] }

abbrev pub alert : String → Io Unit
alert message = modify λ w. record w { alerts = w.alerts ++ message ∷ [] }

abbrev pub set_local : String → String → Io Unit
set_local k v = modify λ w. record w { local = WebStorage.put w.local k v }

abbrev pub remove_local : String → Io Unit
remove_local k = modify λ w. record w { local = WebStorage.remove w.local k }
