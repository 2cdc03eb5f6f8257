-- ===== src/Limits.antt =====
-- The limits that the panel puts on requests and on changes of its database: `UserUsageRateLimiter`,
-- `LoginRateLimiter` and the gate between mutations and maintenance, all of hysteria2_panel.py.
pub mod Usage
pub mod Gate
pub mod Login
mod Tests
