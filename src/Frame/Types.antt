-- ===== src/Frame/Types.antt =====
-- The numbers of the message types, and what `descriptor` makes of any number.
use mumble_web_demo.Prelude.{
  ℕ, ◌≤◌, ◌<◌, ◌≡◌, refl, sym, ap, ◌∙◌, some, ◌⊎◌, inl, inr, get_elem?, get_or, get_elem?-eq-get_or,
  get_elem?-none_of_le, done, abort, fault, arith, dec_lt, lt_of_get_elem?,
}
use mumble_web_demo.Prelude.Tables.{agree, agree-eq}
use mumble_web_demo.Frame.{
  Descriptor, version, udptunnel, authenticate, ping, reject, server_sync, channel_remove,
  channel_state, user_remove, user_state, ban_list, text_message, permission_denied, acl,
  query_users, crypt_setup, context_action_modify, context_action, user_list, voice_target,
  permission_query, codec_version, user_stats, request_blob, server_config, suggest_config,
  descriptors, descriptor, sizeof_descriptors, type_count,
}

-- MUMBLE_TYPE_VERSION to MUMBLE_TYPE_SUGGEST_CONFIG
unfoldable pub type_number : Descriptor → ℕ
type_number version = 0
type_number udptunnel = 1
type_number authenticate = 2
type_number ping = 3
type_number reject = 4
type_number server_sync = 5
type_number channel_remove = 6
type_number channel_state = 7
type_number user_remove = 8
type_number user_state = 9
type_number ban_list = 10
type_number text_message = 11
type_number permission_denied = 12
type_number acl = 13
type_number query_users = 14
type_number crypt_setup = 15
type_number context_action_modify = 16
type_number context_action = 17
type_number user_list = 18
type_number voice_target = 19
type_number permission_query = 20
type_number codec_version = 21
type_number user_stats = 22
type_number request_blob = 23
type_number server_config = 24
type_number suggest_config = 25

-- The table lists every type at its number.
pub get_elem?-type_number : (d : Descriptor) → get_elem? descriptors (type_number d) ≡ some d
unfolding type_number
get_elem?-type_number version = refl
get_elem?-type_number d = refl

type_number-table : (i : ℕ) → i < 26 → type_number (get_or descriptors i version) ≡ i
unfolding agree type_number
type_number-table = agree-eq _ _ 26 refl

pub type_number-get_elem? :
    (i : ℕ) (d : Descriptor) → get_elem? descriptors i ≡ some d → type_number d ≡ i
type_number-get_elem? i d h =
    let lt : i < 26 = lt_of_get_elem? descriptors i h in
    let e : d ≡ get_or descriptors i version =
      cc (h, get_elem?-eq-get_or descriptors i version lt) in
    ap type_number e ∙ type_number-table i lt

pub type_number-lt : (d : Descriptor) → type_number d < type_count
type_number-lt d = lt_of_get_elem? descriptors (type_number d) (get_elem?-type_number d)

pub descriptor-type_number : (d : Descriptor) → descriptor (type_number d) ≡ done d
unfolding descriptor
descriptor-type_number d = ground (arith, get_elem?-type_number d, type_number-lt d)

-- `descriptor` finds each type at its number. From MUMBLE_TYPE_COUNT on, up to the size of the table
-- in bytes, the assertion lets the index pass and the access is out of range; from there on it fails.
pub descriptor_cases :
    (i : ℕ)
    → ((d : Descriptor) × (type_number d ≡ i) × (descriptor i ≡ done d))
      ⊎ (((type_count ≤ i) × (i < sizeof_descriptors) × (descriptor i ≡ fault))
          ⊎ ((sizeof_descriptors ≤ i) × (descriptor i ≡ abort)))
unfolding descriptor
descriptor_cases i = elim (dec_lt i type_count) [
  | yes lt ↦
      let d = get_or descriptors i version in
      let e = type_number-table i lt in inl (d, e, ap descriptor (sym e) ∙ descriptor-type_number d)
  | no ge ↦ elim (dec_lt i sizeof_descriptors) [
    | yes lt ↦ inr (inl (omega arith, lt, ground (arith, get_elem?-none_of_le descriptors i)))
    | no past ↦ inr (inr (omega arith, ground arith))
  ]
]
