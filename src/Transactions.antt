-- ===== src/Transactions.antt =====
-- engine/transactions: locking, the transaction life cycle, sessions and the wire protocol.
pub mod LockMode
pub mod Strict2pl
pub mod Manager
pub mod Protocol
pub mod Catalog
pub mod Session
