-- ===== src/Handlers.antt =====
-- lib/handlers: what the broker does with each packet of a client.
pub mod Publish
pub mod Acks
pub mod Subscription
pub mod Subscribe
pub mod Unsubscribe
pub mod ClientCalls
pub mod Offline
pub mod Connect
pub mod Dispatch
mod Listening
pub mod Storing
pub mod Exchanges
mod Examples
