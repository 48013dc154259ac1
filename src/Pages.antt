-- ===== src/Pages.antt =====
-- The pages that read lists and details (frontend/substrate-front-end-template/src): when they ask
-- the server again, and what they show of an answer.
pub mod Refetch
pub mod Auditors
pub mod Council
pub mod Challenge
pub mod AuditList
pub mod Subscription
pub mod Profile
pub mod Blocks
