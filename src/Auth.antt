-- ===== src/Auth.antt =====
-- app/domain/auth: the account domain. One child for each source file.
pub mod Enums
pub mod Errors
pub mod Events
pub mod RolePolicy
pub mod RoleRequest
pub mod User
pub mod Messages
