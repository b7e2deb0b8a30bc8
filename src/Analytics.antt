-- ===== src/Analytics.antt =====
-- web/src/lib/analytics-config.ts and web/src/components/analytics-injector.tsx: the tracking ids,
-- their validation, and the inline scripts that are built from them.
pub mod Patterns
pub mod Config
pub mod Script
pub mod Injector
pub mod Validation
pub mod Inertness
pub mod FormCheck
pub mod Safety
