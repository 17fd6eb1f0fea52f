-- ===== src/Js.antt =====
-- What the program uses of JavaScript and of the browser: texts, values, storage, errors, requests.
pub mod Text
pub mod Json
pub mod Exec
pub mod Entries
pub mod World
