-- ===== src/Server.antt =====
-- What the console's own server reads for a page: web/src/lib/request-origin.ts, session.server.ts,
-- public-config.server.ts and analytics-config.server.ts, and the metadata routes
-- web/src/app/robots.ts and sitemap.ts.
pub mod Origin
pub mod Reads
