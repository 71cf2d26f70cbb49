-- ===== src/Lib.antt =====
-- nanas: the console (web/) and the client library (packages/sdk/) of a function platform.
--
-- The client library calls the platform's API and its public functions; the console is a React
-- application on the same API, with a session in the browser, realtime sockets, and pages. The
-- files, by the parts of the program:
--   Http          requests, responses and headers of the Fetch standard, as both clients use them
--   Sdk           packages/sdk/src: problem.ts in Sdk/Problem, public-fn.ts in Sdk/PublicFn and the
--                 middleware of client.ts in Sdk/Client (onRequest is on_request, onResponse is
--                 on_response)
--   Web           web/src: api/problem.ts, api/client.ts, auth/session.ts, auth/guards.tsx, and
--                 lib/localCache.ts with hooks/useLocalCache.ts in Web/LocalCache
--   Realtime      web/src/hooks: useRealtime.ts in Realtime/Channels, useQueryRealtime.ts in
--                 Realtime/Query, the refs, sockets and timers of both in Realtime/Wire, and
--                 their page, web/src/features/realtime/RealtimeStreamPage.tsx, in
--                 Realtime/Stream
--   Dsl           web/src/features/triggers/PayloadDSLBuilder.tsx: its text helpers in Dsl/Filter,
--                 its components in Dsl/Builder
--   Storage       web/src/lib/objectKey.ts, and the cards of
--                 web/src/features/storage/StorageBrowserPage.tsx in Storage/Upload and
--                 Storage/Objects
--   Functions     web/src/features/functions: FunctionListPage.tsx (its cells and what it shows in
--                 Functions/Page) and status.ts, with
--                 web/src/components/data/Pagination.tsx; EditorTab.tsx in Functions/Editor,
--                 DeploymentsTab.tsx in Functions/Deployments, EntrypointTab.tsx in
--                 Functions/Entrypoint and VersionsTab.tsx in Functions/Versions
--   Queries       the three queries.ts of web/src/features (functions, triggers, projects): a hook
--                 is a record of its key, request and reading, a mutation its request and effects;
--                 they run on Web/Client (the middleware) and Web/LocalCache; Queries/Raw is
--                 the reading of an answer of rawFetch that several pages and triggers/queries.ts share
--   Triggers      web/src/features/triggers/TriggersListPage.tsx, on Dsl/Builder and Queries
--   Observability web/src/features/observability: Flamegraph.tsx and MetricsPage.tsx
--   App           web/src/app/providers.tsx: the theme and the options of the query client
--   Routes        web/src/app/router.tsx in Routes/Table, with the guards of Web/Guards; the links of
--                 the layouts in Routes/Links, and web/src/features/auth in Routes/Sign
--   Database      web/src/features/database/TablesCatalogPage.tsx in Database/Catalog
--   Projects      web/src/features/projects: ProjectSettingsTab.tsx in Projects/Settings,
--                 ProjectApiKeysTab.tsx in Projects/ApiKeys
--   Marketplace   web/src/features/marketplace: MarketplaceDetailPage.tsx in Marketplace/Semver and
--                 Marketplace/Package, MarketplaceListPage.tsx in Marketplace/Listing
-- State is a record with a field for each cell of the source (`useState`, refs, module variables),
-- a handler is a function on it, and the browser's events are the constructors of a step relation.
-- Text is a list of UTF-16 code units; white space, case and word characters are those of ASCII,
-- and so is the escaping of addresses. The upper case of a whole filter, at whose indices
-- splitTopAnd cuts, is an argument, since it can be longer than the filter. JSON.parse,
-- JSON.stringify, atob, encodeURIComponent where it stands in an address of a socket, the
-- resolution of URLs, dates, the order of names and the test of e-mail addresses are arguments, and
-- so is react-router's choice among the branches of the table that fit a location (Matcher). Loops
-- are structural recursions, but for three: following redirects has 3 visits as its fuel, which is
-- enough since two redirects are the most there are; the search for labels in a sample of the
-- metrics has the length of the text as its fuel, which is enough since each match uses up some of
-- it; and the depth of a span has the depth of the stack as its fuel, which is enough where the
-- parents of spans do not run in a circle.
--
-- Not modelled: the markup of the pages, the other pages, the third-party libraries, the generated
-- types, and the server, which is written in Go.
pub mod Prelude
pub mod Http
pub mod Sdk
pub mod Web
pub mod Queries
pub mod Realtime
pub mod Dsl
pub mod Storage
pub mod Triggers
pub mod Functions
pub mod Observability
pub mod App
pub mod Database
pub mod Marketplace
pub mod Projects
pub mod Routes
