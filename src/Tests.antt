-- ===== src/Tests.antt =====
-- Examples: runs of the model at concrete inputs, and each theorem at an input that meets its
-- hypotheses.
mod Counting
mod Queue
mod Runtime
mod Languages
mod Pages
mod Api
mod Console
mod Calls
mod Guards
mod Editing
mod Forms
