-- ===== src/Backend/Netlink/Responses.antt =====
-- parseNetlinkResponse, and what the client makes of an answer. `none` is a loop that does not end.
use tsastat.Prelude.{
  ℕ, zero, suc, ◌-◌, ◌^◌, ◌<◌, Bool, ◌||◌, not, Option, none, some, List, [], ◌∷◌, arith, ltb, leb,
  nat_beq, if◌then◌else◌, ◌>>=◌, Returns, Returns-some, Returns-bind, Returns-if,
}
use tsastat.Text.{Bytes, length, take, drop}
use tsastat.Text.Slices.{length-drop}
use tsastat.Text.Binary.{ByteOrder, native_uint}
use tsastat.Model.Sources.{Failure, other, Fallible, ok, err}
use tsastat.Backend.Taskstats.{StatsAnswer, counted, gone, refused}
use tsastat.Model.Sample.{DelayCounters}
use tsastat.Backend.Netlink.{
  NetlinkAttribute, align4, parse_netlink_attributes, or_later, in_aggregate, find_stats,
  in_response, decode_taskstats_response,
}
use tsastat.Backend.Netlink.Attributes.{parse_netlink_attributes-Ends}

-- A payload, no message of the request, an error number of the kernel, or another error.
pub data Response : Type 0 where
  matched : Bytes → Response
  unmatched : Response
  errno : ℕ → Response
  invalid : Response

-- The code of an error message is an int32, as a bit pattern.
unfoldable pub error_response : ByteOrder → Bytes → Response
error_response order payload =
    let code = native_uint order (take 4 payload) in
    if ltb (length payload) 4
    then invalid
    else if nat_beq code 0
    then unmatched
    else if leb (2 ^ 31) code
    then errno (2 ^ 32 - code)
    else invalid

-- A message of the request: an error, the end, or data.
unfoldable pub message_response : ByteOrder → ℕ → Bytes → Response
message_response order type_id payload =
    if nat_beq type_id 2
    then error_response order payload
    else if nat_beq type_id 3
    then invalid
    else matched payload

-- The loop over the messages, on fuel, over the bytes from the offset on.
unfoldable pub response_loop : ByteOrder → ℕ → ℕ → Bytes → Option Response
response_loop order sequence zero left = none
response_loop order sequence (suc fuel) left =
    let size = native_uint order (take 4 left) in
    let later = response_loop order sequence fuel (drop (align4 size) left) in
    if ltb (length left) 16
    then some unmatched
    else if ltb size 16 || ltb (length left) size
    then some invalid
    else if nat_beq (native_uint order (take 4 (drop 8 left))) sequence
    then some (
        message_response order (native_uint order (take 2 (drop 4 left)))
          (drop 16 (take size left)))
    else later

-- Each round passes 16 bytes at least, so as many rounds as bytes are enough.
unfoldable pub parse_netlink_response : ByteOrder → Bytes → ℕ → Option Response
parse_netlink_response order message sequence =
    response_loop order sequence (suc (length message)) message

-- What arrives while exchange waits: a datagram, or an error of the socket or of the context.
pub data Arrival : Type 0 where
  datagram : Bytes → Arrival
  failure : Failure → Arrival

-- What exchange comes to: a payload, an error number of the kernel, or another error.
pub data Exchange : Type 0 where
  answered : Bytes → Exchange
  kernel_error : ℕ → Exchange
  broken : Failure → Exchange

-- A message of another request is passed over.
unfoldable pub on_response : Response → Option Exchange → Option Exchange
on_response (matched payload) later = some (answered payload)
on_response unmatched later = later
on_response (errno code) later = some (kernel_error code)
on_response invalid later = some (broken other)

-- When nothing else arrives, the deadline passes.
unfoldable pub exchange : ByteOrder → ℕ → List Arrival → Option Exchange
exchange order sequence [] = some (broken other)
exchange order sequence (failure e ∷ arrivals) = some (broken e)
exchange order sequence (datagram message ∷ arrivals) =
    let later = exchange order sequence arrivals in
    (do response ← parse_netlink_response order message sequence; on_response response later)

-- What Stats makes of it; ESRCH is 3.
unfoldable pub stats_answer : ByteOrder → ℕ → Bool → Bool → Exchange → Option StatsAnswer
stats_answer order tid enabled known (broken e) = some (refused e)
stats_answer order tid enabled known (kernel_error code) =
    some (if nat_beq code 3 then gone else refused other)
stats_answer order tid enabled known (answered payload) = do
  decoded ← decode_taskstats_response order payload tid enabled known
  some (elim decoded [ ok delays ↦ counted delays | err e ↦ refused e ])

-- (*netlinkClient).Stats; the tid is an int, as a bit pattern.
unfoldable pub netlink_stats : ByteOrder → ℕ → List Arrival → ℕ → Bool → Bool → Option StatsAnswer
netlink_stats order sequence arrivals tid enabled known =
    if nat_beq tid 0 || leb (2 ^ 63) tid
    then some (refused other)
    else (do e ← exchange order sequence arrivals; stats_answer order tid enabled known e)

response_loop-Ends :
    (order : ByteOrder) (sequence fuel : ℕ) (left : Bytes)
    → length left < fuel
    → Returns (response_loop order sequence fuel left) (λ _. Unit {0})
unfolding response_loop
response_loop-Ends order sequence zero left enough = absurd (omega arith)
response_loop-Ends order sequence (suc fuel) left enough =
    let size = native_uint order (take 4 left) in
    Returns-if (ltb (length left) 16) _ _ (λ _. Returns-some _ tt)
      λ long.
        Returns-if (ltb size 16 || ltb (length left) size) _ _ (λ _. Returns-some _ tt)
          λ fits.
            Returns-if (nat_beq (native_uint order (take 4 (drop 8 left))) sequence) _ _
              (λ _. Returns-some _ tt)
              λ _.
                response_loop-Ends order sequence fuel (drop (align4 size) left)
                  (ground (arith, enough, long, fits, length-drop (align4 size) left))

-- parseNetlinkResponse ends on any bytes.
pub parse_netlink_response-Ends :
    (order : ByteOrder) (message : Bytes) (sequence : ℕ)
    → Returns (parse_netlink_response order message sequence) (λ _. Unit {0})
unfolding parse_netlink_response
parse_netlink_response-Ends order message sequence =
    response_loop-Ends order sequence (suc (length message)) message (omega arith)

abbrev Ends : {A : Type 0} → Option A → Type 0
Ends m = Returns m (λ _. Unit {0})

on_response-Ends :
    (response : Response) (later : Option Exchange) → Ends later → Ends (on_response response later)
unfolding on_response
on_response-Ends (matched payload) later h = Returns-some _ tt
on_response-Ends unmatched later h = h
on_response-Ends (errno code) later h = Returns-some _ tt
on_response-Ends invalid later h = Returns-some _ tt

exchange-Ends :
    (order : ByteOrder) (sequence : ℕ) (arrivals : List Arrival)
    → Ends (exchange order sequence arrivals)
unfolding exchange
exchange-Ends order sequence [] = Returns-some _ tt
exchange-Ends order sequence (failure e ∷ arrivals) = Returns-some _ tt
exchange-Ends order sequence (datagram message ∷ arrivals) =
    let later = exchange-Ends order sequence arrivals in
    Returns-bind (parse_netlink_response order message sequence) _
      (parse_netlink_response-Ends order message sequence)
      λ response _. on_response-Ends response (exchange order sequence arrivals) later

module _ (order : ByteOrder) (tid : ℕ) (enabled known : Bool) where
  or_later-Ends :
      (found later : Option (Fallible DelayCounters)) → Ends later → Ends (or_later found later)
  or_later-Ends none later h = h
  or_later-Ends (some counters) later h = Returns-some _ tt

  in_aggregate-Ends :
      (nested : Fallible (List NetlinkAttribute)) (later : Option (Fallible DelayCounters))
      → Ends later
      → Ends (in_aggregate order tid enabled known nested later)
  unfolding in_aggregate
  in_aggregate-Ends (err e) later h = Returns-some _ tt
  in_aggregate-Ends (ok children) later h = or_later-Ends _ later h

  find_stats-Ends :
      (attributes : List NetlinkAttribute) → Ends (find_stats order tid enabled known attributes)
  unfolding find_stats
  find_stats-Ends [] = Returns-some _ tt
  find_stats-Ends (attribute ∷ attributes) =
      let later = find_stats-Ends attributes in
      Returns-if (not (nat_beq attribute.type_id 4)) _ _ (λ _. later)
        λ _.
          Returns-bind (parse_netlink_attributes order attribute.bytes) _
            (parse_netlink_attributes-Ends order attribute.bytes)
            λ nested _.
              in_aggregate-Ends nested (find_stats order tid enabled known attributes) later

  in_response-Ends :
      (attributes : Fallible (List NetlinkAttribute))
      → Ends (in_response order tid enabled known attributes)
  unfolding in_response
  in_response-Ends (err e) = Returns-some _ tt
  in_response-Ends (ok attributes) = find_stats-Ends attributes

  stats_answer-Ends : (e : Exchange) → Ends (stats_answer order tid enabled known e)
  unfolding stats_answer decode_taskstats_response
  stats_answer-Ends (broken e) = Returns-some _ tt
  stats_answer-Ends (kernel_error code) = Returns-some _ tt
  stats_answer-Ends (answered payload) =
      Returns-bind (decode_taskstats_response order payload tid enabled known) _
        (Returns-if (ltb (length payload) 4) _ _ (λ _. Returns-some _ tt)
          λ _.
            Returns-bind (parse_netlink_attributes order (drop 4 payload)) _
              (parse_netlink_attributes-Ends order (drop 4 payload))
              λ attributes _. in_response-Ends attributes)
        λ decoded _. Returns-some _ tt

-- Stats ends, whatever arrives from the socket.
pub netlink_stats-Ends :
    (order : ByteOrder) (sequence : ℕ) (arrivals : List Arrival) (tid : ℕ) (enabled known : Bool)
    → Returns (netlink_stats order sequence arrivals tid enabled known) (λ _. Unit {0})
unfolding netlink_stats
netlink_stats-Ends order sequence arrivals tid enabled known =
    Returns-if (nat_beq tid 0 || leb (2 ^ 63) tid) _ _ (λ _. Returns-some _ tt)
      λ _.
        Returns-bind (exchange order sequence arrivals) _ (exchange-Ends order sequence arrivals)
          λ e _. stats_answer-Ends order tid enabled known e
