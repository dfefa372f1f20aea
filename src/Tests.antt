-- ===== src/Tests.antt =====
-- Concrete inputs, and the theorems applied to them.
mod Calls
mod Wire
mod Screens
mod Families
mod Details
mod Server
mod Interface
mod Together
