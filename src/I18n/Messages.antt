-- ===== src/I18n/Messages.antt =====
-- The two dictionaries.
pub mod En
pub mod ZhCn
