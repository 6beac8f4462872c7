-- ===== src/Msgstore/Memory/History.antt =====
-- The in-memory store of msgstore/memory.go against the messages that were appended to a target.
use soju_bouncer.Prelude.{
  ℕ, ◌+◌, ◌-◌, ◌^◌, ◌≤◌, ◌<◌, min, ◌≡◌, refl, ap, ◌∙◌, inl, inr, true, false, Option, none, some,
  List, [], ◌∷◌, ◌++◌, map, arith, ltb, if◌then◌else◌, Bool-cases, ◌==◌, nat_Eq, Str, str_Eq,
  pair_Eq, eq_refl, length, drop, length-append, length-set, length-replicate, lookup, insert,
  is_some, lookup-insert,
}
use soju_bouncer.Irc.{Message}
use soju_bouncer.Msgstore.Memory.{
  message_ring_buffer_cap, Key, find, messages, is_logged, current, buffer_or_new, load_buffer,
  format_memory_msg_id, last_msg_id, append, load_latest_id, MemoryStore,
}
use soju_bouncer.Msgstore.MsgId.{parse-format_same, Codec, Body, IsCodec}
use soju_bouncer.Msgstore.Ring
use soju_bouncer.Msgstore.Ring.{RingBuffer, cap, loaded, load_latest_seq}
use soju_bouncer.Msgstore.Ring.History.{
  drop_all, new-Tracks, append-Tracks, latest, load_latest_seq-Tracks, Tracks,
}

-- The buffer of a target tracks its messages; a target with no buffer has none.
abbrev pub Holds : Option (RingBuffer Message) → List Message → Type 0
Holds none h = h ≡ []
Holds (some rb) h = Tracks rb h × (cap rb ≡ message_ring_buffer_cap)

buffer-Tracks :
    (o : Option (RingBuffer Message)) (h : List Message)
    → Holds o h
    → Tracks (buffer_or_new o) h × (cap (buffer_or_new o) ≡ message_ring_buffer_cap)
unfolding Ring.new
buffer-Tracks none h e =
    rw e (new-Tracks 4096 (omega arith), length-replicate {A = Option Message} 4096 none)
buffer-Tracks (some rb) h t = t

pub append-cap : (rb : RingBuffer Message) (m : Message) → cap (Ring.append rb m).0 ≡ cap rb
unfolding Ring.append
append-cap rb m = length-set rb.buf _ (some m)

load_held :
    (o : Option (RingBuffer Message)) (h : List Message) (seq limit : ℕ)
    → Holds o h
    → seq ≤ length h + 1
    → load_buffer o seq limit ≡ messages (map some (latest h message_ring_buffer_cap seq limit))
load_held none h seq limit e l = rw e (ap messages (nothing seq limit))
  where
    nothing :
        (seq limit : ℕ)
        → []
          ≡ map {B = Option Message} some
              (latest {A = Message} [] message_ring_buffer_cap seq limit)
    nothing seq limit =
        rw (drop_all {A = Message} [] (0 - min limit (min 4096 (0 - seq))) (omega arith))
load_held (some rb) h seq limit (t, full) l =
    let near : ltb (length h + 1) seq ≡ false = ground arith in
    rw (load_latest_seq-Tracks rb h seq limit t, near, full)

-- What is loaded behind the current number, once a message was appended.
next_number :
    (o : Option (RingBuffer Message)) (h : List Message) (msg : Message) (limit : ℕ)
    → Holds o h
    → 0 < limit
    → (current o ≤ length (h ++ msg ∷ []) + 1)
      × (map some (latest (h ++ msg ∷ []) message_ring_buffer_cap (current o) limit)
          ≡ (if is_some o then [] else some msg ∷ []))
next_number none h msg limit e pos =
    rw e (omega arith, ap (λ n. map some (drop n (msg ∷ []))) (zero_left limit pos))
  where
    zero_left : (limit : ℕ) → 0 < limit → 1 - min limit (min 4096 (1 - 0)) ≡ 0
    zero_left limit pos = omega arith
next_number (some rb) h msg limit (t, full) pos =
    let n = length-append h (msg ∷ []) in
    (
      omega (arith, t.counted),
      ap (map some) (drop_all (h ++ msg ∷ []) _ (omega (arith, t.counted))),
    )

module _ (c : Codec) (b : Body ℕ) where
  -- A message that is logged is put at the end of its target's messages, and gets their number in
  -- its identifier; the other targets keep theirs. Other commands change nothing. The store is
  -- open, and the counter stays below 2 ^ 64.
  pub append-Holds :
      (bufs : List (Key × RingBuffer Message)) (net_id : ℕ) (entity : Str) (msg : Message)
      (h : List Message)
      → Holds (lookup (net_id, entity) bufs) h
      → length h + 2 < 2 ^ 64
      → (ms : MemoryStore) × (append c b (record { buffers = some bufs }) net_id entity msg
          ≡ some (
            ms,
            if is_logged msg.command
                then format_memory_msg_id c b net_id entity (length h + 1)
                else [],
          ))
        × Holds
            (find (net_id, entity) ms.buffers)
            (if is_logged msg.command then h ++ msg ∷ [] else h)
        × ((k : Key) → ((net_id, entity) == k) ≡ false → find k ms.buffers ≡ lookup k bufs)
  unfolding append
  append-Holds bufs net_id entity msg h t big = elim (Bool-cases (is_logged msg.command)) [
    | inl logged ↦
        let rb = buffer_or_new (lookup (net_id, entity) bufs) in
        let (tracks, full) = buffer-Tracks (lookup (net_id, entity) bufs) h t in
        let (tracks', seq) = append-Tracks rb h msg tracks big in
        let new_rb = (Ring.append rb msg).0 in
        (
          record { buffers = some (insert (net_id, entity) new_rb bufs) },
          rw (logged, seq),
          rw
              (
                logged,
                lookup-insert (net_id, entity) (net_id, entity) new_rb bufs,
                eq_refl {A = Key} (net_id, entity),
              )
              (tracks', append-cap rb msg ∙ full),
          λ k ne. rw (lookup-insert (net_id, entity) k new_rb bufs, ne),
        )
    | inr other ↦ (record { buffers = some bufs }, rw other, rw other t, λ k ne. refl)
  ]

  -- Messages are loaded by an identifier of their target: those behind its number, oldest first,
  -- of the last 4096 the last `limit`.
  pub load_latest_id-Holds :
      (ms : MemoryStore) (net_id : ℕ) (entity : Str) (h : List Message) (seq limit : ℕ)
      → IsCodec c b
      → Holds (find (net_id, entity) ms.buffers) h
      → seq ≤ length h + 1
      → load_latest_id c b ms
          (format_memory_msg_id c b net_id entity seq)
          (record { network_id = net_id; entity = entity; limit = limit; events = false })
        ≡ messages (map some (latest h message_ring_buffer_cap seq limit))
  unfolding load_latest_id format_memory_msg_id
  load_latest_id-Holds ms net_id entity h seq limit k t l =
      rw (parse-format_same c b net_id entity seq k)
        (load_held (find (net_id, entity) ms.buffers) h seq limit t l)

  -- The identifier that `LastMsgID` gives for a target with a buffer is the number of the next
  -- message, so that the message that comes next is not loaded by it; for a target with no buffer
  -- it is loaded.
  pub last_msg_id_skips :
      (bufs : List (Key × RingBuffer Message)) (net_id : ℕ) (entity : Str) (msg : Message)
      (h : List Message) (limit : ℕ)
      → IsCodec c b
      → Holds (lookup (net_id, entity) bufs) h
      → length h + 2 < 2 ^ 64
      → is_logged msg.command ≡ true
      → 0 < limit
      → (ms : MemoryStore) × (id : Str) × (append c b
            (record { buffers = some bufs })
            net_id
            entity
            msg
          ≡ some (ms, id))
        × (load_latest_id c b ms
              (last_msg_id c b (record { buffers = some bufs }) net_id entity)
              (record { network_id = net_id; entity = entity; limit = limit; events = false })
            ≡ messages (if is_some (lookup (net_id, entity) bufs) then [] else some msg ∷ []))
  unfolding last_msg_id
  last_msg_id_skips bufs net_id entity msg h limit k t big logged pos =
      let (ms, e, held, _) = append-Holds bufs net_id entity msg h t big in
      let (bound, behind) = next_number (lookup (net_id, entity) bufs) h msg limit t pos in
      (
        ms,
        format_memory_msg_id c b net_id entity (length h + 1),
        rw logged at e,
        load_latest_id-Holds ms net_id entity (h ++ msg ∷ []) _ limit k (rw logged at held) bound
            ∙ ap messages behind,
      )
