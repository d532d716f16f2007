-- ===== src/Lib.antt =====
-- Lumen VPN: the console's in-memory backend, and the agent of its nodes.
--
-- The web console of Lumen (apps/web) talks to an interface `LumenApiClient`. One implementation
-- of it, `createDevelopmentLumenApiClient` in apps/web/src/shared/api/developmentClient.ts, is a
-- whole backend in memory: users, squads, nodes and their commands, protocol profiles, hosts,
-- subscriptions, delivery rules, node plugins and settings. This library models that program.
--
-- The state is the record `Client` (Client.antt): one `Table` for each array of the program. A
-- `Table` (Table.antt) is an array of references and a store behind them, since the program changes
-- records in place, may hold one in an array twice, and may give two records the same identifier.
-- A call is a function from its arguments and the state to the state after it and its reply; no
-- call waits between its reads and its writes, so each is one step. A call that throws gives
-- `throws` with the message. The clock is an argument: a text for `new Date().toISOString()`, and a
-- `Moment` where the call also reads `Date.now()`.
--
--   Base         texts, JSON values, numbers and array methods that the program uses
--   Table        arrays of records; Laws, Map, Once, Bulk, Reorder, Numbering and Upkeep: what the
--                operations do to what is found, to the order, and to the references in use
--   Types        the records and requests of apps/web/src/shared/api/types.ts
--   Fixtures     apps/web/src/shared/data/developmentFixtures.ts
--   Client       the state, and a new client (Initial)
--   Nodes        asNodeResponse, createDevelopmentNodeCommand and the calls that queue commands
--   Profiles     profiles: Readiness (listProfileRuntimeReadiness), Cleanup (cleanupStaleProfiles),
--                Ports (checkPortConflicts), Selection (updateNodeProtocolSelection)
--   Hosts, Squads, Users, Subscriptions, Delivery, Plugins, Settings
--                the calls on these, `createHost` as `create_host` and so on; for Users also Lookup
--                and Devices, for Subscriptions also Formats (readSubscriptionRenderFormats)
--   Http         `request` and `refreshSession` of apps/web/src/shared/api/httpClient.ts, for one
--                caller at a time, with `fetcher`, `getSession` and `setSession` as parameters;
--                Provider: with what apps/web/src/shared/api/ApiClientProvider.tsx passes for them;
--                Sharing: the refresh that several callers wait for (`refreshSessionOnce`), as a
--                step relation
--   Agent        the agent that runs on a node, apps/node-agent/src: Provisioning
--                (provisioning-state.js, with Allowance, Diagram, Invariant and Traces), Secrets
--                (findForbiddenKeys of outbound-model.js), Outbound (the rest of it, and
--                provisioning-contracts.js), Firewall (firewall-plan.js), Config (runtime-loop.js,
--                without heartbeats), Commands and CommandType
--                (command-envelope.js), Capabilities (system-capabilities.js), Conflicts
--                (conflict-model.js), and of runtime-runner.js: Plans (the plans from envelopes),
--                Steps (the cases of applyNodeCommand), Runner (applyNodeCommand), Effects
--                (applyRuntimeEffects) and Rounds (the commands of runNodeAgentLoop)
--   Registry     packages/protocol-registry/src: Ports (port-reservations.js) and Adapters
--                (adapter-interface.js)
--   History      every call that changes the state as a step, and the states that are reached
--   Examples     the theorems at concrete states
--
-- The agent keeps a `ProvisioningState`. A command that it is sent becomes an envelope or fails; the
-- mode of the node allows it or it is skipped; a case of `carry_out` moves the state through
-- `transition_provisioning_state` and may leave an action, which `apply_runtime_effects` then does.
-- Everything that may throw is a `Reply`. Parameters of the agent are `Date.parse` (`is_date`), `Number`
-- and `URL` (in Config), the
-- functions that make the plans of the single runtimes (`Planner`), and those that act on them
-- (`Effects`, on a world of which nothing is assumed). The values of `new Date().toISOString()` in a
-- call of `applyNodeCommand` are a `Clock`.
--
-- Bounds. Numbers are whole and not negative, except for the change of the traffic of users.
-- `toLowerCase`, `toUpperCase` and the pattern of `slug` are on ASCII letters. The keys of JSON
-- objects keep the order of insertion, also where they look like integers. There is no fuel: every
-- loop is a recursion on the list that it walks.
--
-- In Http, `getSession` and `setSession` read and change a world that the server changes too; the keys
-- that a spread of a text would give are left out. In Registry.Ports and Agent.Conflicts the owner of
-- a reservation is `undefined`, `null` or a text; for the other fields the two are the same.
--
-- Not modelled: that two clients made in
-- one page share the records of the fixtures; what callers do to records that a reply shares with
-- the state; the operator's tools, provisioning, login and the computed configuration of profiles;
-- the React pages; of the agent the enrolment, the files, the requests, the telemetry and the single
-- runtimes; of the registry the catalog and the plans of single protocols. Libraries and the browser
-- are not modelled. The server behind the HTTP client is the parameter `fetcher`, of which nothing is assumed.
pub mod Base
pub mod Table
pub mod Types
pub mod Fixtures
pub mod Client
pub mod Nodes
pub mod Profiles
pub mod Hosts
pub mod Squads
pub mod Users
pub mod Subscriptions
pub mod Delivery
pub mod Plugins
pub mod Settings
pub mod History
pub mod Http
pub mod Registry
pub mod Agent
pub mod Examples
