-- ===== src/Membership.antt =====
-- Roles and memberships. Permission tables and `require_permission` are backend/permissions.py;
-- the rows and their updates are backend/db/orgs.py and backend/db/models.py; the four endpoints
-- that change memberships are in the child Endpoints (backend/main.py).
pub mod Roles
pub mod Endpoints
pub mod Counting
pub mod Guards
pub mod Transfer
pub mod Owners
pub mod Ranks
mod Tests
pub use Roles.*
