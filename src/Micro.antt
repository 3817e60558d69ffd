-- ===== src/Micro.antt =====
-- transport/micro/: the selector of nodes for calls between services.
pub mod Hash
pub mod Selector
mod Examples
