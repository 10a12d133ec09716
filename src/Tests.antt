-- ===== src/Tests.antt =====
-- The theorems at concrete data, and runs.
mod Stores
mod Web
mod Server
mod Drive
mod Jobs
mod Slack
mod Authorization
mod Clients
mod Upstream
mod Lifespan
mod Seeding
mod Masks
