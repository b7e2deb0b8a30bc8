-- ===== src/I18n/Message.antt =====
-- `Message` of messages/en.ts.
use purels.Base.{String}

pub data Message : Type 0 where
  plain : String → Message
  plural : String → String → Message
