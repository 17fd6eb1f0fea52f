-- ===== src/Sdk/SubClients.antt =====
-- The eleven sub-clients of dbmux/sdk/ts/src/index.ts, a module for each.
pub mod Postgres
pub mod MySql
pub mod Sqlite
pub mod Redis
pub mod Mongo
pub mod Vector
pub mod PubSub
pub mod Queue
pub mod State
pub mod Cron
pub mod Secret
