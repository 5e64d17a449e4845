-- ===== src/Examples.antt =====
-- Runs of the model on concrete inputs.
pub mod Texts
pub mod Requests
pub mod Alerts
pub mod Replies
pub mod Logins
pub mod Watching
pub mod Releases
pub mod Listings
pub mod Refreshes
pub mod Findings
