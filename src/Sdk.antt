-- ===== src/Sdk.antt =====
-- The DBMux TypeScript SDK, dbmux/sdk/ts/src/index.ts.
pub mod Mask
pub mod Client
pub mod Gate
pub mod SubClients
pub mod Call
pub mod Init
pub mod Tests
