-- ===== src/Analytics/Injector.antt =====
-- The snippets that `AnalyticsInjector` renders, and `RoutePageviews`.
pub mod Snippets
pub mod Pageviews
