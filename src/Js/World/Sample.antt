-- ===== src/Js/World/Sample.antt =====
-- Worlds and responses for the tests.
use arcops.Prelude.{ℕ, String, none, some, List, []}
use arcops.Js.Json.{Json}
use arcops.Js.World.{World, Response, Reply, Storage}

-- Nothing has happened yet; the storage and the coming replies are given.
abbrev pub world : Storage → List Reply → World
world stored replies = record {
  local = stored;
  session = [];
  cookie = "";
  events = [];
  timers = 0;
  visited = [];
  alerts = [];
  sent = [];
  replies = replies;
}

abbrev pub reply_json : ℕ → Storage → Json → Response
reply_json status headers value = record {
  status = status;
  status_text = "";
  headers = headers;
  text = "";
  json = some value;
}

abbrev pub reply_text : ℕ → String → Response
reply_text status text = record {
  status = status;
  status_text = "";
  headers = [];
  text = text;
  json = none;
}
