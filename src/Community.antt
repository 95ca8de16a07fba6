-- ===== src/Community.antt =====
-- common/community: request types shared by services.
pub mod TimeRange
mod Examples
