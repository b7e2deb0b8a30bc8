-- ===== src/ApiClient.antt =====
-- web/src/lib/api-client.ts: the console's client of the API.
pub mod Error
pub mod Request
pub mod Endpoints
