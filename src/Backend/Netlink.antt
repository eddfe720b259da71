-- ===== src/Backend/Netlink.antt =====
-- internal/backend/taskstats/netlink_linux.go: the netlink messages that ask for the counters of a
-- thread, and that bring them. `none` is a loop that does not end.
pub mod Attributes
pub mod Requests
pub mod Responses
pub mod Answers
pub mod Tests
use tsastat.Prelude.{
  ℕ, zero, suc, ◌+◌, ◌-◌, ◌%◌, ◌^◌, Bool, true, false, ◌&&◌, ◌||◌, not, Option, none, some, List,
  [], ◌∷◌, ◌++◌, ltb, nat_beq, if◌then◌else◌, ◌>>=◌,
}
use tsastat.Text.{Bytes, length, take, drop, is_empty}
use tsastat.Text.Binary.{ByteOrder, native_uint, write_uint}
use tsastat.Model.Sample.{DelayCounters}
use tsastat.Model.Sources.{other, Fallible, ok, err}
use tsastat.Backend.Taskstats.Decode.{decode_delay_counters}

pub record NetlinkAttribute : Type 0 where
  pub type_id : ℕ
  pub bytes : Bytes

-- (value + 3) &^ 3
abbrev pub align4 : ℕ → ℕ
align4 value = value + 3 - (value + 3) % 4

unfoldable pub all_zero : Bytes → Bool
all_zero [] = true
all_zero (b ∷ bs) = nat_beq b 0 && all_zero bs

abbrev pub prepend :
    NetlinkAttribute → Fallible (List NetlinkAttribute) → Fallible (List NetlinkAttribute)
prepend a (ok rest) = ok (a ∷ rest)
prepend a (err e) = err e

-- The attribute at the front of the bytes that are left, of `size` bytes with its header; the mask
-- keeps 14 bits.
abbrev pub front_attribute : ByteOrder → ℕ → Bytes → NetlinkAttribute
front_attribute order size left = record {
  type_id = native_uint order (take 2 (drop 2 left)) % 0x4000;
  bytes = drop 4 (take size left);
}

-- The loop of parseNetlinkAttributes, on fuel, over the bytes from the offset on.
unfoldable pub attribute_loop : ByteOrder → ℕ → Bytes → Option (Fallible (List NetlinkAttribute))
attribute_loop order zero left = none
attribute_loop order (suc fuel) left =
    let size = native_uint order (take 2 left) in
    let later = attribute_loop order fuel (drop (align4 size) left) in
    if is_empty left
    then some (ok [])
    else if ltb (length left) 4
    then some (if all_zero left then ok [] else err other)
    else if ltb size 4 || ltb (length left) size
    then some (err other)
    else (do attributes ← later; some (prepend (front_attribute order size left) attributes))

-- Each round passes 4 bytes at least, so as many rounds as bytes are enough.
unfoldable pub parse_netlink_attributes :
    ByteOrder → Bytes → Option (Fallible (List NetlinkAttribute))
parse_netlink_attributes order payload = attribute_loop order (suc (length payload)) payload

-- The thread and the counters that the attributes of an aggregate name.
pub record Aggregate : Type 0 where
  pub response_pid : ℕ
  pub stats_payload : Option Bytes

unfoldable pub read_aggregate : ByteOrder → List NetlinkAttribute → Aggregate → Aggregate
read_aggregate order [] found = found
read_aggregate order (child ∷ children) found = read_aggregate order children (
    if nat_beq child.type_id 1
    then (if ltb (length child.bytes) 4
        then found
        else record found { response_pid = native_uint order (take 4 child.bytes) })
    else if nat_beq child.type_id 3
    then record found { stats_payload = some child.bytes }
    else found)

-- What an aggregate comes to: the counters of the thread, or none of it.
abbrev pub aggregate_counters :
    ByteOrder → ℕ → Bool → Bool → Aggregate → Option (Fallible DelayCounters)
aggregate_counters order tid enabled known found = elim found.stats_payload [
  | none ↦ none
  | some payload ↦
      if not (nat_beq found.response_pid (tid % 2 ^ 32))
      then none
      else some (decode_delay_counters order payload enabled known)
]

abbrev pub or_later :
    Option (Fallible DelayCounters)
    → Option (Fallible DelayCounters)
    → Option (Fallible DelayCounters)
or_later none later = later
or_later (some counters) later = some counters

-- What the attributes of an aggregate come to, or the attributes after it.
unfoldable pub in_aggregate :
    ByteOrder
    → ℕ
    → Bool
    → Bool
    → Fallible (List NetlinkAttribute)
    → Option (Fallible DelayCounters)
    → Option (Fallible DelayCounters)
in_aggregate order tid enabled known (err e) later = some (err e)
in_aggregate order tid enabled known (ok children) later =
    or_later
      (aggregate_counters order tid enabled known
        (read_aggregate order children (record { response_pid = 0; stats_payload = none })))
      later

-- The loop over the attributes of a response.
unfoldable pub find_stats :
    ByteOrder → ℕ → Bool → Bool → List NetlinkAttribute → Option (Fallible DelayCounters)
find_stats order tid enabled known [] = some (err other)
find_stats order tid enabled known (attribute ∷ attributes) =
    let later = find_stats order tid enabled known attributes in
    if not (nat_beq attribute.type_id 4) then later else (do
      nested ← parse_netlink_attributes order attribute.bytes
      in_aggregate order tid enabled known nested later)

unfoldable pub in_response :
    ByteOrder → ℕ → Bool → Bool → Fallible (List NetlinkAttribute) → Option (Fallible DelayCounters)
in_response order tid enabled known (err e) = some (err e)
in_response order tid enabled known (ok attributes) = find_stats order tid enabled known attributes

-- decodeTaskstatsResponse; the tid is positive.
unfoldable pub decode_taskstats_response :
    ByteOrder → Bytes → ℕ → Bool → Bool → Option (Fallible DelayCounters)
decode_taskstats_response order response tid enabled known =
    if ltb (length response) 4 then some (err other) else (do
      attributes ← parse_netlink_attributes order (drop 4 response)
      in_response order tid enabled known attributes)

abbrev pub zero_bytes : ℕ → Bytes
zero_bytes zero = []
zero_bytes (suc n) = 0 ∷ zero_bytes n

-- The attribute of a request: its size and type, its bytes, and what aligns it.
unfoldable pub request_attribute : ByteOrder → ℕ → Bytes → Bytes
request_attribute order type_id bytes =
    let size = 4 + length bytes in
    write_uint order 2 (size % 2 ^ 16)
    ++ (write_uint order 2 type_id ++ (bytes ++ zero_bytes (align4 size - size)))

-- The netlink and Generic Netlink headers, of 20 bytes.
unfoldable pub request_header : ByteOrder → ℕ → ℕ → ℕ → ℕ → ℕ → ℕ → Bytes
request_header order total message_type command version sequence port =
    write_uint order 4 (total % 2 ^ 32)
    ++ (write_uint order 2 message_type
        ++ (write_uint order 2 1
            ++ (write_uint order 4 sequence
                ++ (write_uint order 4 port ++ (command ∷ version ∷ 0 ∷ 0 ∷ [])))))

-- buildNetlinkRequest: the bytes that it writes, in their order.
unfoldable pub build_netlink_request : ByteOrder → ℕ → ℕ → ℕ → ℕ → ℕ → ℕ → Bytes → Bytes
build_netlink_request order message_type command version sequence port type_id bytes =
    request_header order (20 + align4 (4 + length bytes)) message_type command version sequence port
    ++ request_attribute order type_id bytes
