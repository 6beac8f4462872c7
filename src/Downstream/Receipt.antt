-- ===== src/Downstream/Receipt.antt =====
-- downstream.go: the pong to the ping with an id of a message stores the receipt.
use soju_bouncer.Prelude.{
  ℕ, ◌≡◌, refl, none, some, ◌++◌, nat_eq, nat_Eq, if◌then◌else◌, Str, ◌&&◌, ◌==◌, str_Eq, lookup,
  lookup-insert,
}
use soju_bouncer.Prelude.Text.{has_prefix}
use soju_bouncer.User.Delivered as Delivered
use soju_bouncer.User.Delivered.{DeliveredStore, load_id-store_id}
use soju_bouncer.Msgstore.MsgId.{Codec, Body, Header, IsCodec, parsed, parse_msg_id, format_msg_id}
use soju_bouncer.Downstream.Ping.{Networks, ping_token, ack_msg_id, handle_pong}

handle_pong-ping_token :
    (c : Codec) (networks : Networks) (client id : Str)
    → handle_pong c networks client (ping_token id) ≡ ack_msg_id c networks client id
unfolding handle_pong ping_token has_prefix
handle_pong-ping_token c networks client id = refl

parse_header :
    {B : Type 0} (c : Codec) (b : Body B) (net_id : ℕ) (target : Str) (x : B)
    → IsCodec c b
    → parse_msg_id {B = Unit {0}} c none (format_msg_id c b net_id target x)
      ≡ parsed net_id target none
unfolding parse_msg_id format_msg_id
parse_header c b net_id target x h =
    let header : Header = record {
      version = 0;
      network = net_id;
      target = target;
      type = b.msg_id_type;
    } in
    rw (h.text_read (c.marshal_header header ++ b.marshal x), h.header_read header (b.marshal x))
      refl

-- The pong to the ping for a message's id stores it as the receipt of the client in the network and
-- for the target of the id, where the network is one of the user's; every other network keeps its
-- receipts, and so do other clients and targets.
pub handle_pong-receipt :
    {B : Type 0} (c : Codec) (b : Body B) (networks : Networks) (delivered : DeliveredStore)
    (net_id : ℕ) (target client : Str) (x : B)
    → IsCodec c b
    → lookup net_id networks ≡ some delivered
    → let id = format_msg_id c b net_id target x in
      (delivered' : DeliveredStore) × ((k : ℕ)
        → lookup k (handle_pong c networks client (ping_token id))
          ≡ (if nat_eq net_id k then some delivered' else lookup k networks))
      × ((name other : Str)
          → Delivered.load_id delivered' name other ≡ (
              if (delivered.casemap target == delivered.casemap name) && client == other
              then id
              else Delivered.load_id delivered name other))
unfolding ack_msg_id
handle_pong-receipt c b networks delivered net_id target client x h known =
    let id = format_msg_id c b net_id target x in
    let delivered' = Delivered.store_id delivered target client id in
    (
      delivered',
      (λ k.
          rw
            (handle_pong-ping_token c networks client id, parse_header c b net_id target x h, known)
            (lookup-insert net_id k delivered' networks)),
      λ name other. (load_id-store_id delivered target client id name other).0,
    )
