-- ===== src/Downstream.antt =====
-- The connections of the bouncer's clients (downstream.go).
pub mod Sasl
pub mod Send
pub mod Ping
pub mod Receipt
