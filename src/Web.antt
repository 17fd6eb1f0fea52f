-- ===== src/Web.antt =====
-- The dashboard, web/src.
pub mod Session
pub mod Sql
pub mod DbmuxSdk
pub mod Tenant
pub mod Dbmux
pub mod ArcAuth
pub mod Api
