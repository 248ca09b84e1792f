-- ===== src/Lib.antt =====
-- A model of the PoolX web console (server/web), which manages proxy nodes and the Mihomo kernel.
--
-- The console is a set of pages. A page keeps its state with React, asks the Go server over HTTP
-- through one request client, and lets react-query cache the answers. A handler of a page is modelled
-- as a function from its state to the next state and the requests that it sends. What react-query
-- keeps (the data of a query, whether a mutation is pending) and the answer to a question are
-- arguments of the handlers. The clicks of a user and the answers of the server come as events, in any
-- order and number, so that a run of a page is a list of events.
--
-- The parts, with the paths of what they model:
-- - Common: lists as JavaScript sets, texts as lists of UTF-16 units with `trim`, `split`, `join`
--   and `includes`, whole numbers as the inputs give them (`Number.parseInt`), and their print
--   (`String`), whose fuel, one more than the number, is above its count of digits.
-- - Ui: the feedback line and thrown values, which every page has; Capability:
--   server/web/features/capability/types.ts.
-- - Api: `apiRequest` and `getApiUrl` of server/web/lib/api/client.ts, as the options of `fetch` and
--   the checks on its response, server/web/types/api.ts, and the listeners of `uploadServerBinary`
--   in server/web/features/update/api/update.ts.
-- - Url: `encodeURIComponent` and `URLSearchParams` of the browser, over UTF-16 and UTF-8; Reading is
--   the reader of a query that the URL standard describes. Requests: every function of
--   server/web/features/*/api with its method, path and body, by subject in Settings, Users, Nodes and
--   Kernel; Calls joins them, and Parameters are the parameters that a call is meant to carry.
--   Pages says which of them the pages of the nodes and of the users call for what they send.
-- - Navigation: server/web/lib/utils/navigation.ts over the tree of
--   server/web/lib/constants/navigation.ts; Sidebar is what
--   server/web/components/layout/dashboard-sidebar.tsx shows of it.
-- - Modal: the effect of server/web/components/ui/app-modal.tsx on the document.
-- - Nodes: server/web/features/nodes. Region is lib/region.ts there: Labels (`REGION_ORDER`), Keywords
--   (both tables, and the patterns as words between word boundaries, in either case), Flags
--   (`extractFlagCountry`), Detection (`detectRegion`) and Grouping (`groupNodesByRegion`). Tags and
--   Page are components/nodes-page.tsx (Page/Selection its selection as a set), Card its cards and the
--   list on the screen, Request is api/nodes.ts.
-- - Logs: server/web/features/logs. Merge is `mergeLogs` of components/logs-page.tsx and Page the rest
--   of it with api/logs.ts; Display is lib/log-display.ts.
-- - Runtime: server/web/features/runtime. Merge is `mergeLogs` of components/runtime-page.tsx, Page its
--   handlers, Screen what it shows.
-- - Workspace: server/web/features/workspace, with the records of types.ts. Payload is the form of a
--   port profile, Page the rest of components/workspace-page.tsx. The strategy `select` is the
--   constructor `choose`.
-- - Users: server/web/features/users. Form is the schema, the payload and the labels, Page the
--   handlers of components/users-page.tsx, Screen what it shows.
-- - Import: server/web/features/import, with the records of types.ts. Origin is `maskSubscriptionURL`
--   and the labels, Panel is `SourceImportPanel`, both of components/source-import-page.tsx.
-- - Theme: server/web/lib/theme/theme.ts and server/web/components/providers/theme-provider.tsx, with
--   the document and the store that they write; Toggle is the button of
--   server/web/components/ui/theme-toggle.tsx.
-- - Shell: server/web/store/app-shell.ts, and of server/web/components/layout the handlers of
--   dashboard-topbar.tsx and the effect of dashboard-sidebar.tsx, over the session of Auth.
-- - Turnstile: server/web/components/forms/turnstile-widget.tsx, with what its script does.
-- - Update: server/web/features/update: the dialog of components/version-upgrade-modal.tsx (Screen is
--   what it shows), the records of types.ts, and of api/update.ts the message of the stream and the
--   URL of its socket.
-- - Dashboard: the statistics and the buttons of
--   server/web/features/dashboard/components/dashboard-overview.tsx, Counts and Bars about its breakdown
--   and its bars; Screen is what it shows.
-- - Dates and Metrics: `formatRelativeTime` of server/web/lib/utils/date.ts, Stamp
--   `formatDateTimeWithMilliseconds` there, and `formatBytes` of
--   server/web/lib/utils/metrics.ts, whose loop has fuel for its four divisions.
-- - Settings: server/web/features/settings, with the records of types.ts and of
--   server/web/types/public-status.ts. Of components/settings-page.tsx there: Fields are the forms and
--   their first values, Options how they are filled (`optionsToMap`, `toBoolean` and the effects),
--   Entries what each button saves and its checks, Inputs the inputs and switches, Actions what
--   `runBusyAction` and `saveOptionEntries` run behind the buttons, as a list of the actions that
--   await an answer, Page the handlers and what is on the screen, Page/Step the buttons and the
--   mutations, Page/Events the step. Server is the map of options of server/internal/model/option.go
--   with `ListEditableOptions` of server/internal/service/option.go; Server/Saving and Server/Secrets
--   put a save of the page together with it.
-- - Auth: server/web/types/auth.ts; Provider is server/web/components/providers/auth-provider.tsx, with
--   the requests that are under way, and of server/web/features/auth/components Guards are the two
--   guards and Forms the pages: Login (with the callback of GitHub), Register and Reset.
-- - Tests: runs of the model at inputs of server/web/tests, and the theorems at concrete inputs.
--
-- Every loop of the source runs over a list and is structural recursion. Numbers are
-- natural numbers or integers of any size, where the source has doubles that hold them exactly.
--
-- Parameters of the model: what the form library passes on from the schema of a form, the browser's
-- `URL`, `toLowerCase` and `toUpperCase`, zod's test of an e-mail address, the formats of dates, and the
-- percentages of the overview, which the source rounds from doubles. The guards take
-- `encodeURIComponent` as a parameter, and their theorems say where it is the function of Url.
--
-- Not modelled: the Go server but for its map of options, since the console only reaches it over HTTP;
-- that it accepts the requests of a save is a condition of the theorems about saves. Nor what the pages
-- draw, the chart with its axis in doubles included; nor server/zashboard, a dashboard of another
-- project that the server only ships.
pub mod Api
pub mod Auth
pub mod Capability
pub mod Common
pub mod Dashboard
pub mod Dates
pub mod Import
pub mod Logs
pub mod Metrics
pub mod Modal
pub mod Navigation
pub mod Nodes
pub mod Requests
pub mod Runtime
pub mod Settings
pub mod Shell
pub mod Tests
pub mod Theme
pub mod Turnstile
pub mod Ui
pub mod Update
pub mod Url
pub mod Users
pub mod Workspace
