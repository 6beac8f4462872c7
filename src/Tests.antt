-- ===== src/Tests.antt =====
-- The theorems at concrete inputs.
mod Upstream
pub mod Connection
mod Life
mod Msgstore
mod Sasl
mod Names
mod GenMsg
mod Modes
mod Networks
mod Downstream
