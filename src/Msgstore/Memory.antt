-- ===== src/Msgstore/Memory.antt =====
-- msgstore/memory.go, memoryMessageStore: a ring buffer for each network and target.
pub mod History
use soju_bouncer.Prelude.{
  ℕ, ◌*◌, Bool, ◌||◌, Option, none, some, List, [], if◌then◌else◌, ◌==◌, nat_Eq, Str, str_Eq,
  pair_Eq, codes, lookup, insert,
}
use soju_bouncer.Irc.{Message}
use soju_bouncer.Msgstore.MsgId.{
  bad_body, parsed, invalid, format_msg_id, parse_msg_id, Codec, Body, ParseError, ParseResult,
}
use soju_bouncer.Msgstore.Ring
use soju_bouncer.Msgstore.Ring.{loaded, bad_sequence, load_latest_seq, RingBuffer, LoadResult}

abbrev pub message_ring_buffer_cap : ℕ
message_ring_buffer_cap = 4096

abbrev pub Key : Type 0
Key = ℕ × Str

-- `none` is the nil map that `Close` leaves.
pub record MemoryStore : Type 0 where
  pub buffers : Option (List (Key × RingBuffer Message))

unfoldable pub new_store : MemoryStore
new_store = record { buffers = some [] }

unfoldable pub close : MemoryStore → MemoryStore
close ms = record { buffers = none }

-- A read of a map, which may be nil.
abbrev pub find : Key → Option (List (Key × RingBuffer Message)) → Option (RingBuffer Message)
find k none = none
find k (some m) = lookup k m

-- Options of a load, as far as this store reads them. The limit is not negative.
pub record LoadOptions : Type 0 where
  pub network_id : ℕ
  pub entity : Str
  pub limit : ℕ
  pub events : Bool

pub data LoadError : Type 0 where
  events_unsupported : LoadError
  bad_id : ParseError → LoadError
  beyond : ℕ → ℕ → LoadError

pub data Loaded : Type 0 where
  messages : List (Option Message) → Loaded
  load_error : LoadError → Loaded

abbrev pub is_logged : Str → Bool
is_logged command = command == codes "PRIVMSG" || command == codes "NOTICE"

abbrev pub current : Option (RingBuffer Message) → ℕ
current none = 0
current (some rb) = rb.cur

abbrev pub buffer_or_new : Option (RingBuffer Message) → RingBuffer Message
buffer_or_new none = Ring.new message_ring_buffer_cap
buffer_or_new (some rb) = rb

abbrev pub to_loaded : LoadResult Message → Loaded
to_loaded (loaded l) = messages l
to_loaded (bad_sequence seq cur) = load_error (beyond seq cur)

abbrev pub load_buffer : Option (RingBuffer Message) → ℕ → ℕ → Loaded
load_buffer none seq limit = messages []
load_buffer (some rb) seq limit = to_loaded (load_latest_seq rb seq limit)

module _ (c : Codec) (seq_body : Body ℕ) where
  unfoldable pub format_memory_msg_id : ℕ → Str → ℕ → Str
  unfolding format_msg_id
  format_memory_msg_id net_id entity seq = format_msg_id c seq_body net_id entity seq

  unfoldable pub last_msg_id : MemoryStore → ℕ → Str → Str
  last_msg_id ms net_id entity =
      format_memory_msg_id net_id entity (current (find (net_id, entity) ms.buffers))

  -- A write to the nil map panics: `none`.
  abbrev pub store_message :
      Option (List (Key × RingBuffer Message)) → ℕ → Str → Message → Option (MemoryStore × Str)
  store_message none net_id entity msg = none
  store_message (some m) net_id entity msg =
      let (rb, seq) = Ring.append (buffer_or_new (lookup (net_id, entity) m)) msg in
      some (
        record { buffers = some (insert (net_id, entity) rb m) },
        format_memory_msg_id net_id entity seq,
      )

  unfoldable pub append : MemoryStore → ℕ → Str → Message → Option (MemoryStore × Str)
  append ms net_id entity msg =
      if is_logged msg.command then store_message ms.buffers net_id entity msg else some (ms, [])

  abbrev pub load_parsed : MemoryStore → LoadOptions → ParseResult ℕ → Loaded
  load_parsed ms options (parsed _ _ none) = load_error (bad_id bad_body)
  load_parsed ms options (parsed _ _ (some seq)) =
      load_buffer (find (options.network_id, options.entity) ms.buffers) seq options.limit
  load_parsed ms options (invalid e) = load_error (bad_id e)

  unfoldable pub load_latest_id : MemoryStore → Str → LoadOptions → Loaded
  unfolding parse_msg_id
  load_latest_id ms id options =
      if options.events
      then load_error events_unsupported
      else load_parsed ms options (parse_msg_id c (some seq_body) id)
