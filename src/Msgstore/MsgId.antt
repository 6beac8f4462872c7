-- ===== src/Msgstore/MsgId.antt =====
-- msgstore/msgstore.go: internal message identifiers, a BARE header and a body in base64. The BARE
-- library and base64 are parameters.
use mathlib.Core.Logic.{ite, if_pos, if_neg}
use soju_bouncer.Prelude.{
  ℕ, ◌≡◌, refl, ◌≢◌, Option, none, some, ◌++◌, nat_eq, if◌then◌else◌, nat_Eq, Str, str_Eq, pair_Eq,
}

pub data MsgIdType : Type 0 where
  none_type memory fs db : MsgIdType

pub MsgIdType-discrete : Discrete MsgIdType
MsgIdType-discrete = hlevel

pub record Header : Type 0 where
  pub version : ℕ
  pub network : ℕ
  pub target : Str
  pub type : MsgIdType

abbrev pub msg_id_version : ℕ
msg_id_version = 0

-- The header's codec (go-bare) and base64 without padding.
pub record Codec : Type 0 where
  pub marshal_header : Header → Str
  pub unmarshal_header : Str → Option (Header × Str)
  pub encode : Str → Str
  pub decode : Str → Option Str

-- A kind of body with its codec.
pub record Body (B : Type 0) : Type 0 where
  pub msg_id_type : MsgIdType
  pub marshal : B → Str
  pub unmarshal : Str → Option B

-- What is relied on: reading undoes writing.
pub record IsCodec {B : Type 0} (c : Codec) (b : Body B) : Type 0 where
  pub header_read :
      (h : Header) (rest : Str) → c.unmarshal_header (c.marshal_header h ++ rest) ≡ some (h, rest)
  pub text_read : (s : Str) → c.decode (c.encode s) ≡ some s
  pub body_read : (x : B) → b.unmarshal (b.marshal x) ≡ some x

pub data ParseError : Type 0 where
  bad_base64 bad_header : ParseError
  bad_version : ℕ → ParseError
  bad_type : MsgIdType → ParseError
  bad_body : ParseError

pub data ParseResult (B : Type 0) : Type 0 where
  parsed : ℕ → Str → Option B → ParseResult B
  invalid : ParseError → ParseResult B

module _ {B : Type 0} (c : Codec) where
  unfoldable pub format_msg_id : Body B → ℕ → Str → B → Str
  format_msg_id b net_id target body =
      let header : Header = record {
        version = msg_id_version;
        network = net_id;
        target = target;
        type = b.msg_id_type;
      } in
      c.encode (c.marshal_header header ++ b.marshal body)

  abbrev pub with_body : Header → Option B → ParseResult B
  with_body header none = invalid bad_body
  with_body header (some x) = parsed header.network header.target (some x)

  -- `none` is the nil body: only the header is read.
  abbrev pub read_body : Option (Body B) → Header → Str → ParseResult B
  read_body none header rest = parsed header.network header.target none
  read_body (some b) header rest =
      ite (MsgIdType-discrete header.type b.msg_id_type) (with_body header (b.unmarshal rest))
        (invalid (bad_type header.type))

  abbrev pub check_version : Option (Body B) → Header → Str → ParseResult B
  check_version b header rest =
      if nat_eq header.version msg_id_version
      then read_body b header rest
      else invalid (bad_version header.version)

  abbrev pub read_header : Option (Body B) → Option (Header × Str) → ParseResult B
  read_header b none = invalid bad_header
  read_header b (some (header, rest)) = check_version b header rest

  abbrev pub read_bytes : Option (Body B) → Option Str → ParseResult B
  read_bytes b none = invalid bad_base64
  read_bytes b (some bytes) = read_header b (c.unmarshal_header bytes)

  unfoldable pub parse_msg_id : Option (Body B) → Str → ParseResult B
  parse_msg_id b s = read_bytes b (c.decode s)

  pub parse-format_same :
      (b : Body B) (net_id : ℕ) (target : Str) (x : B)
      → IsCodec c b
      → parse_msg_id (some b) (format_msg_id b net_id target x) ≡ parsed net_id target (some x)
  unfolding parse_msg_id format_msg_id
  parse-format_same b net_id target x h =
      let header : Header = record {
        version = 0;
        network = net_id;
        target = target;
        type = b.msg_id_type;
      } in
      rw (
        h.text_read (c.marshal_header header ++ b.marshal x),
        h.header_read header (b.marshal x),
        if_pos _ refl,
        h.body_read x,
      )

  -- An identifier is read back with its network, target and body; its header alone is read where no
  -- body is asked for; and it is refused where a body of another kind is asked for.
  pub parse-format :
      (b other : Body B) (net_id : ℕ) (target : Str) (x : B)
      → IsCodec c b
      → b.msg_id_type ≢ other.msg_id_type
      → (parse_msg_id (some b) (format_msg_id b net_id target x) ≡ parsed net_id target (some x))
        × (parse_msg_id none (format_msg_id b net_id target x) ≡ parsed net_id target none)
        × (parse_msg_id (some other) (format_msg_id b net_id target x)
            ≡ invalid (bad_type b.msg_id_type))
  unfolding parse_msg_id format_msg_id
  parse-format b other net_id target x h ne =
      let header : Header = record {
        version = 0;
        network = net_id;
        target = target;
        type = b.msg_id_type;
      } in
      let t = h.text_read (c.marshal_header header ++ b.marshal x) in
      let r = h.header_read header (b.marshal x) in
      (parse-format_same b net_id target x h, rw (t, r), rw (t, r, if_neg _ ne))
