-- ===== src/Lib.antt =====
-- The Zaw workbench: a model of the TypeScript services that keep the state of the browser client,
-- packages/workbench/src and packages/ui/src/widgets.
--
-- The program. The workbench is a client of agent hosts. A user opens a session of a workspace; the
-- attachment service connects to the workspace's agent host and passes its actions on; the projection
-- turns those actions into events of the chat session service; the active session, the navigation
-- history, the session catalog and the terminals are further services, and views draw what they hold.
-- The services speak to one another through events (`Emitter`), context keys and commands, and what
-- can be extended is kept in registries.
--
-- The files, with the source that each is about.
--   Base         Boolean tests, lists over the native numbers, a `Map` keyed by text, stable sorting, bags
--                (the quotient of lists that forgets their order)
--   Json         values of `JSON.parse`, and the readers of ahp-projection-service.ts
--   Event        packages/ui/src/widgets/event.ts: Emitter (Event, Event/Delivery), DisposableStore
--                (Event/Store); a callback's effect on the emitter is a parameter
--   Context      packages/workbench/src/platform/context-key: expressions, scopes as the chain from a service
--                to the root (Context), createKey and its handles (Context/Service), watchers of
--                expressions (Context/Watching)
--   Registry     the registries of actions, key bindings, session statuses, agent host providers,
--                contributions and view containers, over one register and dispose
--   Commands     packages/workbench/src/platform/commands/command-service.ts
--   Views        packages/workbench/src/services/workbench-view-registry.ts (Views), workbench-view-host.ts
--                (Views/Host)
--   Attachment   packages/workbench/src/services/workspace-attachment.ts
--   AhpClient    packages/workbench/src/providers/ahp/ahp-client.ts: requests and the socket (AhpClient), methods
--                as programs that wait for an answer (Operations), messages that come in (Messages),
--                sessions, chats, terminals, files and changesets (Sessions, Chats, Resources)
--   ActiveSession  packages/workbench/src/services/active-session.ts, the key of a session (Key) and a `Map`
--                keyed by it (Table)
--   Navigation   packages/workbench/src/services/navigation.ts
--   SessionCatalog  packages/workbench/src/contrib/sessions/session-catalog-service.ts
--   Sections     packages/workbench/src/contrib/sessions/session-catalog-sections.ts
--   SessionService  packages/workbench/src/contrib/sessions/session-service.ts, over the services it calls
--   ChatSession  packages/workbench/src/services/chat-session.ts and chat-events.ts
--   Projection   packages/workbench/src/contrib/sessions/ahp-projection-service.ts: `project` over the services that
--                it calls (Dispatch), and the parts that it is made of
--   Workspace    packages/workbench/src/contrib/workspace: workspace-service.ts, detail-view-service.ts (Details),
--                workspace-resource-service.ts (Resources)
--   UiState      packages/workbench/src/services/workspace-ui-state.ts, floating-window.ts (Windows)
--   Management   packages/workbench/src/contrib/management/management-service.ts
--   Layout       packages/workbench/src/workbench/layout/layout-service.ts
--   Terminal     packages/workbench/src/contrib/terminal/terminal-service.ts, terminal-group-service.ts
--   VirtualList  packages/ui/src/widgets/virtual-list.ts
--
-- How the code is carried over. A service is a record of its fields, and a method a function on it
-- with the method's name; an event that fires is part of the result. An `async` method is split at its
-- `await`: the half before it, and the half after it with the answer as an argument, so that a history
-- is any sequence of halves and other calls, and answers come late, out of order or never. A call that
-- throws gives `none` or a constructor of an outcome type. Objects that are compared by identity have
-- an address. Texts are compared by the language's test; in ActiveSession/Key a text is its UTF-8
-- bytes. Where sessions are compared by `sessionIdentityKey` they are compared by their two fields.
--
-- Bounds and fuel. The search of the virtual list recurses on the length of the list, which bounds the
-- rounds that its halving loop takes. `errorMessage` has two calls more than its text has characters, as
-- each call but the last is on a shorter text. All other loops follow the list they run over. Heights,
-- offsets, indices and serial numbers are natural numbers. The one machine-width operation is `>>> 1` in
-- the search, which wraps its sum at 2 ^ 32.
-- The history of navigation.ts holds 50 entries, as in the code.
--
-- Parameters. The locale's order of texts (Registry, Views, Sections), the host's `connect` (Attachment),
-- commands that fail or not (Navigation), the comparison of two catalogs by `JSON.stringify`
-- (SessionCatalog), the texts that the projection makes of tool inputs and results (Projection, `Texts`;
-- those of results are defined in Projection/Errors, over `JSON.parse`),
-- what a condition evaluates to and whether a view's constructor returns (Views, `Platform`), the
-- serialisation of the stored interface state (UiState, `Codec` and `BoundsCodec`), JSON texts of
-- changeset files (AhpClient) and the host's `resourceURI` (Workspace).
--
-- Not modelled: the DOM of widgets and views, the dependency container and the start of the workbench,
-- the HTTP client of the management provider, the registrations of commands and actions, and everything
-- that is not TypeScript (the Go server under internal and cmd).
pub mod ActiveSession
pub mod AhpClient
pub mod Attachment
pub mod Base
pub mod ChatSession
pub mod Commands
pub mod Context
pub mod Event
pub mod Json
pub mod Layout
pub mod Management
pub mod Navigation
pub mod Projection
pub mod Registry
pub mod Sections
pub mod SessionCatalog
pub mod SessionService
pub mod Terminal
pub mod UiState
pub mod Views
pub mod VirtualList
pub mod Workspace
