-- ===== src/I18n.antt =====
-- web/src/lib/i18n: the languages of the console, which of them a request gets, and its messages.
pub mod Message
pub mod Messages
pub mod Locale
pub mod Negotiate
pub mod Request
pub mod Translate
