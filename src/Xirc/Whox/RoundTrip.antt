-- ===== src/Xirc/Whox/RoundTrip.antt =====
-- WHOX replies of xirc/whox.go: what is generated is read back.

use soju_bouncer.Prelude.{
  ◌&&◌, false, some, Option, is_empty, List, contains, ℕ, [], ◌∷◌, Str, str_Eq, nat_Eq, nat_eq,
  if◌then◌else◌, codes, arith, ◌≡◌, refl, list_eq_iff,
}
use soju_bouncer.Xirc.Whox.{
  no_info, whox_fields, values_of, generate_whox_reply, read_values, parse_whox_reply, WhoxInfo,
  get, set, shown_channel, shown_hostname, shown_account,
}

shown_channel_idem : (s : Str) → shown_channel (shown_channel s) ≡ shown_channel s
unfolding shown_channel
shown_channel_idem s = ground arith

shown_hostname_idem : (s : Str) → shown_hostname (shown_hostname s) ≡ shown_hostname s
unfolding shown_hostname
shown_hostname_idem [] = refl
shown_hostname_idem (c ∷ s) = ground arith

shown_account_idem : (s : Str) → shown_account (shown_account s) ≡ shown_account s
unfolding shown_account
shown_account_idem s = ground (arith, list_eq_iff s (codes "*"))

get-set :
    (info acc : WhoxInfo) (f k : ℕ)
    → get (set acc f (get info f)) k ≡ (if nat_eq f k then get info k else get acc k)
unfolding get set
get-set info acc f k = ground (
  arith,
  shown_channel_idem info.channel,
  shown_hostname_idem info.hostname,
  shown_account_idem info.account,
)

-- What reading back the generated values leaves in the info.
merge : Str → Str → WhoxInfo → WhoxInfo → WhoxInfo
merge [] fields info acc = acc
merge (f ∷ fs) fields info acc =
    merge fs fields info (if contains f fields then set acc f (get info f) else acc)

read_unasked :
    (f : ℕ) (fs fields : Str) (values : List Str) (acc : WhoxInfo) {r : Option WhoxInfo}
    → contains f fields ≡ false
    → read_values fs fields values acc ≡ r
    → read_values (f ∷ fs) fields values acc ≡ r
unfolding read_values
read_unasked f fs fields [] acc h p = rw h p
read_unasked f fs fields (v ∷ values) acc h p = rw (h, read_values) p

read_values_lem :
    (fs fields : Str) (info acc : WhoxInfo)
    → read_values fs fields (values_of fs fields info) acc ≡ some (merge fs fields info acc)
unfolding read_values values_of merge
read_values_lem [] fields info acc = refl
read_values_lem (f ∷ fs) fields info acc = ground (
  arith,
  read_values_lem fs fields info (set acc f (get info f)),
  read_values_lem fs fields info acc,
  read_unasked f fs fields (values_of fs fields info) acc {r = some (merge fs fields info acc)},
)

get-merge :
    (fs fields : Str) (info acc : WhoxInfo) (k : ℕ)
    → get (merge fs fields info acc) k
      ≡ (if contains k fs && contains k fields then get info k else get acc k)
unfolding merge
get-merge [] fields info acc k = refl
get-merge (f ∷ fs) fields info acc k = ground (
  arith,
  get-set info acc f k,
  get-merge fs fields info (set acc f (get info f)) k,
  get-merge fs fields info acc k,
)

-- A reply that is generated for some fields is read back without an error: each field that was
-- asked for reads as it was sent, and every other field as that of an empty info.
pub parse-generate_whox :
    (fields : Str) (info : WhoxInfo)
    → is_empty fields ≡ false
    → (parsed : WhoxInfo) × (parse_whox_reply (generate_whox_reply fields info) fields
        ≡ some parsed)
      × ((k : ℕ)
          → get parsed k
            ≡ (if contains k whox_fields && contains k fields then get info k else get no_info k))
unfolding parse_whox_reply generate_whox_reply
parse-generate_whox fields info h = (
  merge whox_fields fields info no_info,
  rw h (read_values_lem whox_fields fields info no_info),
  get-merge whox_fields fields info no_info,
)
