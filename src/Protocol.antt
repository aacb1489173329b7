-- ===== src/Protocol.antt =====
-- The wire protocol at the transport boundary: the validators of
-- frontend-app/src/app/home/data-provider.service.ts. Each returns what the type guard returns.
pub mod Fields
pub mod Calls
pub mod Rooms
pub mod Client
pub mod Events
pub mod Diagnostics
pub mod Sync
mod Examples
