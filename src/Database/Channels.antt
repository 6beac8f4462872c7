-- ===== src/Database/Channels.antt =====
-- Saved channels of database/database.go, and when a message counts for them.
use soju_bouncer.Prelude.{ℕ, Bool, Str}

pub data MessageFilter : Type 0 where
  filter_default filter_none filter_highlight filter_message : MessageFilter

pub record ChannelSettings : Type 0 where
  pub name : Str
  pub key : Str
  pub detached : Bool
  pub detached_internal_msg_id : Str
  pub relay_detached : MessageFilter
  pub reattach_on : MessageFilter
  pub detach_after : ℕ
  pub detach_on : MessageFilter
