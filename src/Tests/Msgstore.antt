-- ===== src/Tests/Msgstore.antt =====
-- The message store of msgstore/memory.go, with identifiers in a simple encoding.
use soju_bouncer.Prelude.{
  ℕ, zero, suc, ◌≡◌, refl, ap, ◌∙◌, ◌≢◌, false, Option, none, some, List, [], ◌∷◌, ◌++◌, arith,
  ◌==◌, nat_Eq, Str, str_Eq, pair_Eq, codes, length, take, drop, length-replicate, lookup,
  if◌then◌else◌, nat_eq, ◌&&◌,
}
use soju_bouncer.Irc.{Message, message}
use soju_bouncer.Xirc.CaseMapping.{casemap_ascii}
use soju_bouncer.User.Delivered as Delivered
use soju_bouncer.User.Delivered.{DeliveredStore}
use soju_bouncer.Downstream.Ping.{handle_pong, ping_token}
use soju_bouncer.Downstream.Receipt.{handle_pong-receipt}
use soju_bouncer.Msgstore.MsgId.{
  format_msg_id, MsgIdType, Header, Codec, Body, IsCodec, none_type, memory, fs, db,
}
use soju_bouncer.Msgstore.Ring
use soju_bouncer.Msgstore.Ring.{RingBuffer, loaded, load_latest_seq}
use soju_bouncer.Msgstore.Ring.History.{Tracks, new-Tracks, append-Tracks}
use soju_bouncer.Msgstore.Memory.{
  Key, find, messages, is_logged, format_memory_msg_id, last_msg_id, load_latest_id,
  message_ring_buffer_cap, MemoryStore,
}
use soju_bouncer.Msgstore.Memory
use soju_bouncer.Msgstore.Memory.History.{
  append-cap, Holds, append-Holds, load_latest_id-Holds, last_msg_id_skips,
}

abbrev type_code : MsgIdType → ℕ
type_code none_type = 0
type_code memory = 1
type_code fs = 2
type_code db = 3

abbrev code_type : ℕ → MsgIdType
code_type zero = none_type
code_type (suc zero) = memory
code_type (suc (suc zero)) = fs
code_type (suc (suc (suc _))) = db

abbrev read_header_bytes : Str → Option (Header × Str)
read_header_bytes (v ∷ n ∷ t ∷ l ∷ s) =
    some (record { version = v; network = n; target = take l s; type = code_type t }, drop l s)
read_header_bytes _ = none

abbrev read_one : Str → Option ℕ
read_one (x ∷ []) = some x
read_one _ = none

abbrev plain_codec : Codec
plain_codec = record {
  marshal_header = λ h. h.version ∷ h.network ∷ type_code h.type ∷ length h.target ∷ h.target;
  unmarshal_header = read_header_bytes;
  encode = λ s. s;
  decode = some;
}

abbrev seq_body : Body ℕ
seq_body = record { msg_id_type = memory; marshal = λ x. x ∷ []; unmarshal = read_one }

abbrev row_body : Body ℕ
row_body = record { msg_id_type = db; marshal = λ x. x ∷ []; unmarshal = read_one }

code_type-type_code : (t : MsgIdType) → code_type (type_code t) ≡ t
code_type-type_code none_type = refl
code_type-type_code memory = refl
code_type-type_code fs = refl
code_type-type_code db = refl

take_all : (t r : Str) → take (length t) (t ++ r) ≡ t
take_all [] r = refl
take_all (c ∷ t) r = ap (◌∷◌ c) (take_all t r)

drop_past : (t r : Str) → drop (length t) (t ++ r) ≡ r
drop_past [] r = refl
drop_past (c ∷ t) r = drop_past t r

plain_codec-IsCodec : IsCodec plain_codec seq_body
plain_codec-IsCodec = record {
  header_read = λ h rest.
      rw (take_all h.target rest, drop_past h.target rest, code_type-type_code h.type) refl;
  text_read = λ s. refl;
  body_read = λ x. refl;
}

memory_ne : memory ≢ db
memory_ne e = ground (arith, ap type_code e)

abbrev hello : Message
hello = message (codes "PRIVMSG") (codes "#soju" ∷ codes "hello" ∷ [])

-- A buffer of two slots with one message.
abbrev small : RingBuffer Message
small = (Ring.append (Ring.new 2) hello).0

small-Tracks : Tracks small (hello ∷ [])
small-Tracks = (append-Tracks (Ring.new 2) [] hello (new-Tracks 2 (omega arith)) (omega arith)).0

abbrev channel : Key
channel = (3, codes "#soju")

append-Holds_example :
    (ms : MemoryStore) × (Memory.append plain_codec seq_body
        (record { buffers = some [] })
        3
        (codes "#soju")
        hello
      ≡ some (ms, format_memory_msg_id plain_codec seq_body 3 (codes "#soju") 1))
    × Holds (find (3, codes "#soju") ms.buffers) (hello ∷ [])
    × ((k : Key) → ((3, codes "#soju") == k) ≡ false → find k ms.buffers ≡ lookup k [])
append-Holds_example =
    append-Holds plain_codec seq_body [] 3 (codes "#soju") hello [] (unfold lookup in refl)
      (omega arith)

load_latest_id-Holds_example :
    load_latest_id plain_codec seq_body
      (record { buffers = some [] })
      (format_memory_msg_id plain_codec seq_body 3 (codes "#soju") 1)
      (record { network_id = 3; entity = codes "#soju"; limit = 10; events = false })
    ≡ messages []
load_latest_id-Holds_example =
    load_latest_id-Holds plain_codec seq_body (record { buffers = some [] }) 3 (codes "#soju") [] 1
      10 plain_codec-IsCodec (unfold lookup in refl) (omega arith)

abbrev full : RingBuffer Message
full = (Ring.append (Ring.new 4096) hello).0

full-Holds : Holds (some full) (hello ∷ [])
unfolding Ring.new
full-Holds = (
  (append-Tracks (Ring.new 4096) [] hello (new-Tracks 4096 (omega arith)) (omega arith)).0,
  append-cap (Ring.new 4096) hello ∙ length-replicate {A = Option Message} 4096 none,
)

abbrev one_buffer : List (Key × RingBuffer Message)
one_buffer = (channel, full) ∷ []

last_msg_id_skips_example :
    (ms : MemoryStore) × (id : Str) × (Memory.append plain_codec seq_body
        (record { buffers = some one_buffer })
        3
        (codes "#soju")
        hello
      ≡ some (ms, id))
    × (load_latest_id plain_codec seq_body ms
          (last_msg_id plain_codec seq_body
            (record { buffers = some one_buffer })
            3
            (codes "#soju"))
          (record { network_id = 3; entity = codes "#soju"; limit = 10; events = false })
        ≡ messages [])
unfolding lookup
last_msg_id_skips_example =
    last_msg_id_skips plain_codec seq_body one_buffer 3 (codes "#soju") hello (hello ∷ []) 10
      plain_codec-IsCodec full-Holds (omega arith) refl (omega arith)

abbrev receipts : DeliveredStore
receipts = record { casemap = casemap_ascii; m = [] }

handle_pong-receipt_example :
    let id = format_msg_id plain_codec seq_body 3 (codes "#soju") 7 in
    (delivered' : DeliveredStore) × ((k : ℕ)
      → lookup k (handle_pong plain_codec ((3, receipts) ∷ []) (codes "phone") (ping_token id))
        ≡ (if nat_eq 3 k then some delivered' else lookup k ((3, receipts) ∷ [])))
    × ((name other : Str)
        → Delivered.load_id delivered' name other ≡ (
            if (casemap_ascii (codes "#soju") == casemap_ascii name) && (codes "phone" == other)
            then id
            else Delivered.load_id receipts name other))
unfolding lookup
handle_pong-receipt_example =
    handle_pong-receipt plain_codec seq_body ((3, receipts) ∷ []) receipts 3 (codes "#soju")
      (codes "phone") 7 plain_codec-IsCodec refl
