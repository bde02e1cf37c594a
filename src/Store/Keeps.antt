-- ===== src/Store/Keeps.antt =====
-- Every operation of a store keeps the invariant of its state, whatever it returns.
pub mod Shared
pub mod Slots
pub mod Create
pub mod Begin
pub mod Finish
pub mod Remove
pub mod Collect
pub mod Calls
