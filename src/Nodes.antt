-- ===== src/Nodes.antt =====
-- The node control plane of hysteria2_panel.py: the tables that hold a node, from its verification
-- to its archive, and the transactions of `class Database` on them.
pub mod Row
pub mod Database
pub mod UsageRows
pub mod Nonce
pub mod Enrollment
pub mod Online
pub mod Authorization
pub mod Admission
pub mod Lifecycle
pub mod Commands
pub mod Kicks
pub mod BudgetDrain
pub mod Bootstrap
pub mod Invariant
pub mod Requests
pub mod Reach
mod Tests
