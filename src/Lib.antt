-- ===== src/Lib.antt =====
-- ArcOps: the browser side of the platform, which talks to its servers through one gateway.
--
-- The program's parts and how they meet. The DBMux SDK (dbmux/sdk/ts/src/index.ts) posts calls to
-- the gateway and refuses a call whose engine the server does not report. The dashboard has a copy of
-- it (web/src/lib/dbmux-sdk.ts), behind the wrapper that runs SQL for the user's tenant
-- (web/src/lib/dbmux.ts). The auth client (web/src/lib/arcauth.ts) signs in and out; it, the login
-- page, the session handshake of the application, the guard of the routes and the navigation bar share
-- the session in `localStorage`. The FrontEdge pages create projects and deploy them. The client of
-- BuckStream (buckstream/sdk/node/buckstream.js) uploads, lists and deletes files for a demo page and for
-- the dashboard; the panels of databases and of the schema run SQL through the wrapper.
--
-- Prelude: names of the libraries, Boolean tests on numbers and texts, lists counted by native
--   numbers; Steps has the runs of a step relation.
-- Js: the language and the browser. Text has the string methods, the encoding of a part of a URL and
--   the reading of its query, Json the values of type `any`, Exec asynchronous functions that may throw,
--   World what the program sees of the browser and the network.
-- Sdk: dbmux/sdk/ts/src/index.ts. Mask has the capability bits, Client the constructor, `doRequest`
--   and `init`, Gate the check that each engine method begins with, SubClients one module per
--   sub-client. Call puts the methods into one type, over which Call.Gating, Call.Sending and
--   Call.Frame speak; Init joins `init` to later calls.
-- Web: web/src/lib. Session has what `authenticate` stores and `logout`, ArcAuth the auth client,
--   DbmuxSdk the copy of the SDK, Tenant `getTenantId`, Sql `splitSqlStatements`, Api `apiFetch`, and
--   Dbmux the methods of `DBMuxWrapper`.
-- Buckstream: buckstream/sdk/node/buckstream.js and web/src/lib/buckstream.ts. Token follows the
--   requests that carry the token, Protocol the two steps of an upload; Demo is
--   buckstream/demo/src/App.tsx.
-- Pages: web/src/App.tsx and web/src/components. Login is login-page.tsx, Shell the handshake of
--   App.tsx and protected-route.tsx, EnvVars and CreateProject
--   frontedge/frontedge-create-project.tsx, Console is frontedge-console.tsx,
--   Tables is tables-page.tsx, ProjectDetail frontedge/frontedge-project-detail.tsx, ApiKeys
--   api-key-bento.tsx, SqlDrawer sql-drawer.tsx, Schema schema-visualizer.tsx, Databases db-bento.tsx,
--   Navbar navbar.tsx, Dashboard dashboard-bento.tsx, ArcAuthDemo arcauth-page.tsx, ErrorPage
--   error-page.tsx, and ProjectsList frontedge/frontedge-projects-list.tsx. ErrorPage.Refusal joins the
--   error page to the login page, ProjectDetail.Labels what a page shows to how its builds load, and
--   Console.Submission the form for a new project to the console. A module View of a page has what it
--   shows and the handlers of its controls.
--
-- How code is written here. An asynchronous function is an action on a state (Exec): it returns or
-- throws, and what it wrote before stays written. The client's functions act on the browser (World),
-- the methods of an object and the handlers of a page on that object or its state as well (Object).
-- The network is the list of replies still to come; a request takes the first, and with none left the
-- promise is rejected. A function runs from its start to its end: other handlers do not run while it
-- waits, and a handler reads the state at the time of the call, not the one of the last rendering.
-- Calls that the code does not await run at once. A timer is only counted.
--
-- Bounds. Numbers in JSON are naturals. Letters outside ASCII have no other case. A text is its code
-- points; where a length or a replacement counts UTF-16 units, that is written out. The one function on
-- fuel is the decimal notation, with a digit's worth for each unit of the number.
--
-- Parameters. What `JSON.parse`, `atob` and `decodeURIComponent` decode is a record of functions
-- (Web.Tenant.Decoder); the transport of ConnectRPC is a function of the options; how the router takes
-- the query from a path is a function of the path. Object URLs, `btoa`, the time, and 35% of the height
-- of the window are arguments.
--
-- Not modelled: the servers (Go), the SDKs in other languages, generated code, the layout
-- and animation of the pages, and the pages that only present.
pub mod Buckstream
pub mod Prelude
pub mod Js
pub mod Sdk
pub mod Web
pub mod Pages
