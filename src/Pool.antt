-- ===== src/Pool.antt =====
-- transport/h1pool: many clients over shared transports.
pub mod Packet
pub mod Server
pub mod Client
pub mod Session
pub mod Supply
pub mod Reply
pub mod Life
mod Tests
