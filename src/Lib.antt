-- ===== src/Lib.antt =====
-- home_server_interface: a model of Home Server Interface, a control panel for one Linux server: of
-- its backend and of the dashboard's windows and uploads, with their theorems.
--
-- A browser signs in through the login handler, which asks the throttle before it looks at a
-- password and records the outcome there. A signed-in request carries a session token; the session
-- code checks it against the logout blacklist and loads the user's current rights, and the guard
-- chain of each tRPC procedure decides whether the call runs and what the audit log keeps. Uploads
-- come in as chunks that several requests write at once into one table. The volume guard polls the
-- worker's report on the data volumes and keeps holds on those that are not usable. Notifications
-- wait in an outbox that a poller empties, with retries and a rate limit for each connector;
-- an update of the program itself is watched, and mutations are refused while it lasts; other
-- events come from checks, whose findings are reconciled with the open alerts. What changes the
-- host is previewed first and applied as a plan of steps: shares, users and volumes with the
-- database written last, container apps with their compose file put back if it is refused. The
-- dashboard shows it all in windows, which the browser keeps, and sends files to the upload table
-- in chunks, asking after a reload of the page what the table still holds. What an AI assistant asks
-- to change is stored, and run only when its user approves it.
--
-- The files and the code they model, by path from the repository's root:
--   LoginThrottle            apps/backend/src/services/login-throttle.ts: `attempts` is an
--                            association list, the clock an argument.
--   Auth/Tokens, Blacklist   apps/backend/src/trpc/auth.ts: the five kinds of tokens, the
--                            blacklist. jsonwebtoken is the record Jwt, randomUUID an argument.
--   Auth/Session             apps/backend/src/trpc/session.ts: authenticateSession; the user table
--                            is the argument `load_current_user`.
--   Auth/Procedures          apps/backend/src/trpc/index.ts and context.ts: the guards, the four
--                            procedure builders and the audit middleware.
--   Auth/Login               apps/backend/src/trpc/routers/auth.ts and services/auth.service.ts:
--                            the login handler, as the two parts before and after it waits
--                            for the database and bcrypt, so that logins interleave; table,
--                            bcrypt and toLowerCase are the record Accounts.
--   Uploads                  apps/backend/src/services/upload.service.ts: the upload table, the
--                            tombstones, the writes and the collector. A waiter is a number, a
--                            promise a flag, and an upload carries its object identity.
--   VolumeGuard              apps/backend/src/services/volume-guard.ts: holds, plans, rounds,
--                            refusals and resumption. The worker's report and the list of apps are
--                            arguments, missing when the call failed.
--   Deliveries               apps/backend/src/services/notification-queue.ts: the outbox of
--                            notifications; the connectors, the reading of an event and the
--                            outcome of a send are parameters.
--   Alerts                   apps/backend/src/services/alert-sampler.ts: diffAlerts and
--                            reconcileSource for the alerts of one source.
--   Updates                  apps/backend/src/services/update-watch.ts and maintenance.ts: the
--                            verdict on an update, its record, and the maintenance window.
--   ApiTokens                apps/backend/src/services/api-tokens.ts: the personal access tokens
--                            of AI assistants.
--   AgentActions             apps/backend/src/services/agent-actions.ts, trpc/routers/agentAction.ts
--                            and mcp/context.ts: the changes that wait for an approval. An
--                            approval is a row of stages, one for each access of the database,
--                            and events let the approvals under way go on in any order.
--   Exclusions               apps/backend/src/services/ai-exclusions.ts: the calls that may not
--                            reach an excluded Place, and results without what lies in one.
--   Plans                    apps/backend/src/services/sharing-plan.ts, user-plan.ts, volume-plan.ts
--                            and volume-remove-plan.ts: the previews and applications of changes
--                            of shares, users and volumes. The worker, the database, the hash
--                            and the lock are the record Host, whose answers are any function
--                            of the calls made before; a call that throws is an error.
--   Backups                  apps/backend/src/services/backup-status.ts: the findings of the
--                            worker's report and the migration of former plans, a loop on fuel
--                            that 24 attempts are enough for.
--   Desktop                  apps/dashboard/src/lib/desktop.ts: the window manager of the
--                            dashboard. JSON.parse and JSON.stringify are parameters.
--   Apps                     apps/backend/src/services/app-plan.ts: the execution of the plans of
--                            container apps, the steps that change a compose file, and the
--                            operations of a diff. The host is a state of any type.
--   Transfers                apps/dashboard/src/lib/uploads.ts and upload-runner.ts: uploads in
--                            chunks, their resumption after a reload, and batches of copies and
--                            moves. What the network answers is any function of what happened
--                            before; SHA-256 and Vue's read-only view are parameters.
--   Base                     lists and string-keyed maps over native numbers, Boolean tests,
--                            results, and the lemmas that the parts share.
-- Each part's other files prove the theorems, and its Tests module applies them to concrete input.
--
-- Every loop is structural recursion over the list it walks, but for the migration of Backups and
-- the diff of Apps, whose fuel is the number of lines of both texts, as it takes one at each turn. Times are natural
-- numbers of milliseconds. Strings are lists of characters; the length is that of UTF-16.
--
-- Not modelled: the Go worker and the bus to it, the database behind the arguments named above, the
-- rest of the dashboard, the routers that only forward to the worker, and log lines. A JSON web
-- token's signature is what the record Jwt and the hypotheses on it say.
mod Base
pub mod AgentActions
pub mod LoginThrottle
pub mod Auth
pub mod Uploads
pub mod VolumeGuard
pub mod Deliveries
pub mod Alerts
pub mod Updates
pub mod Exclusions
pub mod ApiTokens
pub mod Plans
pub mod Desktop
pub mod Backups
pub mod Apps
pub mod Transfers
