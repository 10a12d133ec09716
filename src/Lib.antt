-- ===== src/Lib.antt =====
-- The MCP agent gateway: a FastAPI application (app/main.py) that gives agents access to Google Drive
-- and Slack behind OAuth 2.1. A request passes the middleware, the MCP server picks the tool, the tool
-- takes the shared upstream token from a store and calls the provider, and Redis holds the counters,
-- the jobs, the events and the usage.
--
-- The parts and their modules:
--   Base         Python's texts, dicts, lists and exceptions, JSON values, and lemmas on them
--   Redis        the commands of a server as an interface with laws, a server in memory, and commands
--                that may raise (Commands)
--   Shared       app/shared/store.py (Store: the protocol and its contract; InMemory; Redis) and
--                app/shared/usage.py (Usage)
--   Config       app/config.py
--   Identity     app/identity/token_validator.py (TokenValidator), protected_resource.py
--                (ProtectedResource), and client_registration (ClientRegistration): models.py
--                (Metadata), registrar.py (Registrar), repository.py (Repository)
--   Middleware   app/middleware (AccessGuard, OriginGuard, RateLimiter, RequestLogger,
--                SecurityHeaders), and their order in app/main.py (Stack)
--   Mcp          app/mcp/event_store.py (EventStore), app/mcp/server.py and
--                app/integrations/google/prompts.py (Server), app/mcp/app.py and health.py (App)
--   Api          app/api/usage_router.py (Usage), app/api/webhooks_router.py (Webhooks)
--   Authorization app/authorization/pkce.py, the check of the parameters in its router.py, and the
--                routes there (Authorize)
--   Integrations httpx and tenacity as the clients use them (Http, Retrying);
--                app/integrations/google: drive_query.py (DriveQuery), drive_client.py
--                (DriveClient), token_store.py (TokenStore), tools.py (Tools, with the Drive client
--                in Tools/Upstream), jobs.py, job_tools.py
--                and job_worker.py (Jobs, with the loop of the worker in Jobs/Loop, and the worker
--                with the Drive client in Jobs/Upstream);
--                app/integrations/slack: signature.py (Signature), slack_client.py (SlackClient),
--                token_store.py (TokenStore), tools.py (Tools)
--   Main         the startup and the shutdown of app/main.py
--   RoleSeeding  compose/local/keycloak/seed_rbac.py
--   Logging      app/logging.py
--   Tests        runs, and the theorems at concrete data
--
-- How the code is read. A function that changes state takes the state and returns the new one. A call
-- that may raise returns `Result`, with the exceptions that the code tells apart as constructors and the
-- others by name. An instant is an argument, in milliseconds; what the source keeps in seconds with a
-- fraction is in milliseconds too. A coroutine is a function: between two steps of different requests
-- the server decides, which the theorems on Redis express by a state and an instant of their own for
-- each step. A middleware is a function on applications; a request has the headers that are read.
-- No definition needs fuel: every loop runs over a list, the endless loop of the worker over a list
-- of its rounds, and an attempt of a client is followed by the next through the interface to tenacity,
-- whose law is one step: the theorems on the clients show that `max_retries` bounds the steps.
--
-- Code that is not in the repository is an argument with laws, where a theorem needs some: the Redis
-- commands, PyJWT, the CORS middleware of Starlette, tenacity, the resolver and
-- ipaddress, Fernet, json, HMAC, float, tiktoken, the HTTP
-- clients, Pydantic's validation and the file system. The export jobs, the worker and the tracking of
-- usage take Redis commands that may raise; the other parts stand on a server that answers. The servers in memory of Redis/Memory and
-- Redis/Counters, and the codecs of Tests, meet the laws.
--
-- Not modelled: app/shared/dependencies.py, app/shared/exceptions.py and app/integrations/base.py
-- (accessors and declarations without logic), the handlers and formatters of the logging
-- configuration, the parts of network and file I/O, and the test code of the repository.
pub mod Base
pub mod Redis
pub mod Shared
pub mod Identity
pub mod Middleware
pub mod Mcp
pub mod Api
pub mod Config
pub mod Authorization
pub mod Integrations
pub mod Main
pub mod RoleSeeding
pub mod Logging
pub mod Tests
