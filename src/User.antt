-- ===== src/User.antt =====
-- user.go: what a user of the bouncer keeps for the networks.
pub mod Delivered
pub mod Networks
