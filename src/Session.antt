-- ===== src/Session.antt =====
-- lib/client.js and lib/qos-packet.js: the parts of a Client object that work on its own fields.
pub mod MessageIds
pub mod Duplicates
pub mod Drain
pub mod Inbox
pub mod Sample
mod Examples
