-- ===== src/Pages.antt =====
-- The dashboard's pages: the state and the handlers of web/src/App.tsx and web/src/components.
pub mod Login
pub mod ErrorPage
pub mod Shell
pub mod EnvVars
pub mod CreateProject
pub mod Console
pub mod Tables
pub mod ProjectDetail
pub mod ProjectsList
pub mod ApiKeys
pub mod SqlDrawer
pub mod Schema
pub mod Databases
pub mod Navbar
pub mod Dashboard
pub mod ArcAuthDemo
