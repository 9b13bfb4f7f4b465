-- ===== src/Client.antt =====
-- The browser's part, apps/client/src.
pub mod ExplorerPage
pub mod Zk
pub mod Witness
