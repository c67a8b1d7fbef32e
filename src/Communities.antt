-- ===== src/Communities.antt =====
-- Communities, their members and their meetups: src/modules/communities/services.
pub mod Tables
pub mod Access
pub mod Lifecycle
pub mod Members
pub mod Meetups
pub mod Counted
pub mod Membership
pub mod Methods
pub mod Meeting
pub mod Attendance
pub mod Run
pub mod Limits
pub mod Tests
pub mod Posts
pub mod Replies
pub mod Moderation
pub mod Discussion
pub mod Tallies
