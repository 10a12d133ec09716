-- ===== src/Integrations.antt =====
-- app/integrations: the upstream providers.
pub mod Google
pub mod Slack
pub mod Http
pub mod Retrying
