-- ===== src/Msgstore.antt =====
-- Package msgstore (msgstore/): message identifiers and the in-memory store.
pub mod Ring
pub mod MsgId
pub mod Memory
