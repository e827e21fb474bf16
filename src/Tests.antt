-- ===== src/Tests.antt =====
-- Concrete instances of the parameters, and the development run on examples.
pub mod Buffer
pub mod Table
pub mod Samples
mod Clients
mod Delivery
mod Launches
mod Protocol
mod Searches
mod Sockets
mod Starting
mod State
mod Tables
