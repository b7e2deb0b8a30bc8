-- ===== src/Js.antt =====
-- The parts of the JavaScript standard library that the console's code uses.
pub mod Text
pub mod Uri
pub mod Json
pub mod Case
pub mod Regex
pub mod Number
pub mod Headers
pub mod Decimal
