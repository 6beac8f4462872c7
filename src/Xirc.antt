-- ===== src/Xirc.antt =====
-- Package xirc (xirc/): case mappings, memberships, capabilities, WHOX and message generation.
pub mod CaseMapping
pub mod CaseMappingMap
pub mod Caps
pub mod Membership
pub mod Whox
pub mod GenMsg
