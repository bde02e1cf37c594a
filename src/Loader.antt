-- ===== src/Loader.antt =====
-- The file loader that crates/assets/examples/file_loader/mod.rs builds on a store.
pub mod Budget
pub mod Failure
pub mod Reading
pub mod Key
pub mod Metrics
pub mod Directory
pub mod Producer
pub mod Production
pub mod Requests
pub mod Wait
pub mod Program
mod Examples
