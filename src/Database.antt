-- ===== src/Database.antt =====
-- app/infrastructure/db: the tables, the state of the service, and the repositories.
pub mod Tables
pub mod World
pub mod Redis
pub mod Keeps
pub mod Profiles
pub mod Search
pub mod TopPosts
pub mod Users
