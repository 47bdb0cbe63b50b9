-- ===== src/Campaign.antt =====
-- The life of a campaign: its status in the database, the pipe that sends it, and the rate limit.
pub mod Status
pub mod Pipe
pub mod Sliding
pub mod Scan
mod Examples
