-- ===== src/Lib.antt =====
-- Remodelator is an estimating tool for remodelling contractors. This library models its TypeScript
-- clients: the single-page application of archive/apps/web/src_legacy (session, estimates with line
-- items, catalog, templates, proposals, billing simulation, LLM price suggestions and
-- administration, each a set of handlers that call the backend and update React state), and the
-- core of the application of apps/web that followed it (its API client, its sign-in and routes, its
-- estimate page with the assist panel and the line editor, and the logic of its other pages).
--
-- How the files correspond to the code. For the modules of Legacy, lib and types.ts stand in
-- archive/apps/web/src_legacy; for those of Web, the paths start at apps/web/src.
--
--   Base                  texts, integers, lists and tests that the code takes from JavaScript
--   Legacy/Types          types.ts
--   Legacy/Defaults       lib/defaults.ts
--   Legacy/State          the use*State hooks, lib/useWorkspaceForms.ts, lib/useProfileState.ts
--   Legacy/Monad          the state that lib/useAppController.ts joins (World), requests and replies,
--                         and async functions
--   Legacy/Api            lib/api.ts
--   Legacy/Runner         lib/useActionRunner.ts
--   Legacy/Guards         lib/guardedRunners.ts
--   Legacy/Reset          lib/workspaceReset.ts
--   Legacy/Session        lib/storage.ts, lib/session.ts, lib/useSessionStorage.ts
--   Legacy/Loaders        lib/dataLoaders.ts, lib/formatters.ts
--   Legacy/Actions        lib/*Actions.ts, one module for each file (Workspace and Reorder for
--                         workspaceActions.ts, Billing and Card for billingActions.ts)
--   Legacy/Sync           lib/useEstimateSelectionSync.ts
--   Legacy/Bootstrap      lib/useSessionBootstrap.ts
--   Legacy/Status         lib/appStatus.ts
--   Legacy/Filters        lib/adminFilterBindings.ts
--   Legacy/Commands       the handlers that lib/useAppController.ts gives to the panels
--   Legacy/Keeps,         the invariant that every request is authorised and the log is short, with a rule
--   Legacy/Authority      for each way to build a handler
--   Legacy/Blocked        what the handlers do without a session
--   Legacy/Tests          theorems at concrete worlds
--   Web/App               stores/authStore.ts, stores/adminAuthStore.ts, and the state of the client
--   Web/Client            api/client.ts
--   Web/Auth              features/auth/useAuth.ts, AuthGuard.tsx, AdminGuard.tsx, and api/auth.ts; Forms for
--                         schemas.ts and the pages of sign-in
--   Web/Builtins          numbers and other things that the code takes from JavaScript
--   Web/Query             what a page does besides its requests: stale queries, toasts, addresses
--   Web/Api               api/*.ts: Calls for the functions, Send for the requests that they send
--   Web/Routes            App.tsx; Access is the view of it that knows only who visits
--   Web/Theme             lib/theme.ts, with its use in App.tsx and SettingsPage.tsx
--   Web/Debounce          hooks/useDebounce.ts
--   Web/Format            lib/formatters.ts
--   Web/Admin             features/admin/AdminDashboardPage.tsx
--   Web/Pages             features/billing/BillingPage.tsx (Billing), EstimateListPage.tsx and
--                         TemplateListPage.tsx (Lists), CatalogPage.tsx (Catalog), SettingsPage.tsx and
--                         BackupSection.tsx (Settings), QuickstartDialog.tsx (Quickstart),
--                         ProposalPage.tsx (Proposal), DashboardPage.tsx (Dashboard)
--   Web/Ui                stores/uiStore.ts, components/layout/Sidebar.tsx
--   Web/Estimate          features/estimates/EstimateDetailPage.tsx: Groups for groupedLineItems and the
--                         moves, Selection for the sets of ticked lines and open nodes, Types for what
--                         it reads of api/types.ts, Page for the page itself
--   Web/Estimate/Page     State for its useState and useMutation, Bodies for what it sends, Labor for
--                         the totals, Mutations for mutationFn, onSuccess and onError, Forms, Handlers
--                         and Events for its buttons and fields; Queue is the abstract view of it, with
--                         the running commands, the calls and the effects alone
--   Web/Estimate/Assist   features/estimates/LlmAssistPanel.tsx
--   Web/Estimate/Editor   features/estimates/LineItemEditor.tsx
--   Web/Tests             theorems at concrete states
--
-- An async function is a function of the world (M in Legacy/Monad) that ends by returning, by
-- throwing, at an await whose reply does not come, or with a successful reply of another type than
-- the caller casts it to (off_contract). The backend is the list of replies in the world, taken one
-- for each request, so a statement about all worlds is about all backends. A handler closes over
-- the values of the render in which it was made; the model gives it that render as a world of its
-- own, o, beside the world w that it changes. No loop of Legacy needs fuel: the recursion is on
-- lists and texts.
--
-- The browser's functions that the code calls are parameters, the fields of Platform: the clock,
-- encodeURIComponent, URLSearchParams, JSON.parse, JSON.stringify and localeCompare. The parts of
-- Promise.all run one after the other, each to its end, and no other handler runs between two
-- awaits. Number.parseInt stays exact past 2^53. A request's body is the object given to
-- JSON.stringify. A stored session whose email is truthy and no text is rejected, where the code
-- keeps it.
--
-- In Web a request is what fetch receives and a reply is a status, its text and a body, or a
-- rejection. The fields of Runtime are parameters: API_BASE, JSON.parse, String of a value that is
-- no text, and whether a JSON number is 0. No caller of request passes headers of its own.
-- toUpperCase is exact on ASCII. A Set or a Map is the list of its members or entries in insertion
-- order.
--
-- Further parameters of Web are Builtins (a type of numbers with what JavaScript does on it),
-- Encoding (URLSearchParams and encodeURIComponent), Checks (zod's test of an email and length of a
-- text), the matching and splitting of paths by react-router, and Intl and Date. A page is a state
-- and events on it: a handler runs to its end, a mutation that it starts is recorded with its
-- requests, and a later event ends it, so every order in which requests may end is a list of
-- events. As react-query has it, a mutation observes the last command that it was given; isPending
-- and the callbacks given to mutate belong to that command alone. A disabled button is a guard.
-- Going to another address is an effect, and the page is taken while it is mounted, and a query
-- that comes again is an event with the new value. A visit follows at most as many redirections as
-- its fuel says; 3 is enough, since /login is open to all and / only sends to /login.
--
-- Not modelled: the panels and components (JSX) and the labels that useAppController.ts computes
-- for them; of apps/web, the views without logic of their own, the page of a public proposal, and
-- the store's persistence, which is the library zustand's; the backend, and the earlier versions
-- with the scripts of other projects that they hold.
pub mod Base
pub mod Legacy
pub mod Web
