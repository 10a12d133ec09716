-- ===== src/Integrations/Slack.antt =====
-- app/integrations/slack
pub mod Signature
pub mod SlackClient
pub mod TokenStore
pub mod Tools
