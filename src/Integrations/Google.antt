-- ===== src/Integrations/Google.antt =====
-- app/integrations/google: the queries for Drive, the tokens, and the export jobs
pub mod DriveQuery
pub mod DriveClient
pub mod TokenStore
pub mod Jobs
pub mod Tools
