-- ===== src/Broker.antt =====
-- aedes.js: the broker object.
pub mod Publishing
pub mod Registry
pub mod Failure
pub mod TimeOuts
