-- ===== src/Upstream.antt =====
-- The connections to IRC servers (upstream.go), with what user.go does to them.
pub mod Life
pub mod Cached
pub mod Detach
pub mod Dispatch
pub mod Kinds
pub mod Watch
pub mod Sasl
pub mod Names
pub mod Users
pub mod Handle
pub mod Highlight
pub mod Text
pub mod Account
pub mod Registration
pub mod Isupport
pub mod Replies
pub mod Channels
pub mod Monitor
pub mod Members
pub mod Produce
pub mod State
pub mod Pending
pub mod Labels
