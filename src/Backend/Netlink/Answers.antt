-- ===== src/Backend/Netlink/Answers.antt =====
-- The answer of the kernel to a request for a thread's counters.
use tsastat.Prelude.{
  ℕ, ◌+◌, ◌%◌, ◌^◌, ◌<◌, ◌≡◌, refl, ap, ◌∙◌, Bool, true, false, none, some, [], ◌∷◌, ◌++◌, arith,
  ltb, nat_beq, All,
}
use tsastat.Text.{Bytes, length, take}
use tsastat.Text.Slices.{drop_front, take_front, length-append}
use tsastat.Text.Binary.{
  ByteOrder, native_uint, write_uint, native_uint-write_uint, length-write_uint,
}
use tsastat.Model.Sources.{other, err}
use tsastat.Backend.Taskstats.Decode.{decode_delay_counters}
use tsastat.Backend.Netlink.{
  NetlinkAttribute, request_attribute, read_aggregate, aggregate_counters, or_later, in_aggregate,
  find_stats, in_response, decode_taskstats_response,
}
use tsastat.Backend.Netlink.Attributes.{write_attributes, FitsField, length-request_attribute}
use tsastat.Backend.Netlink.Requests.{parse_netlink_attributes-write_attributes}

-- The attributes of the thread's id, of its counters, and of both together.
abbrev pub pid_attribute : ByteOrder → ℕ → NetlinkAttribute
pid_attribute order tid = record { type_id = 1; bytes = write_uint order 4 tid }

abbrev pub stats_attribute : Bytes → NetlinkAttribute
stats_attribute payload = record { type_id = 3; bytes = payload }

abbrev pub aggregate_attribute : ByteOrder → ℕ → Bytes → NetlinkAttribute
aggregate_attribute order tid payload = record {
  type_id = 4;
  bytes = write_attributes order (pid_attribute order tid ∷ stats_attribute payload ∷ []);
}

take_whole : (bs : Bytes) (n : ℕ) → length bs ≡ n → take n bs ≡ bs
take_whole bs n e = ap (take n) (nil bs) ∙ take_front n bs [] e
  where
    nil : (xs : Bytes) → xs ≡ xs ++ []
    nil [] = refl
    nil (x ∷ xs) = ap (λ rest. x ∷ rest) (nil xs)

found_aggregate :
    (order : ByteOrder) (tid : ℕ) (payload : Bytes)
    → tid < 2 ^ 32
    → read_aggregate order
        (pid_attribute order tid ∷ stats_attribute payload ∷ [])
        (record { response_pid = 0; stats_payload = none })
      ≡ record { response_pid = tid; stats_payload = some payload }
unfolding read_aggregate
found_aggregate order tid payload h =
    let long : ltb (length (write_uint order 4 tid)) 4 ≡ false =
      ground (arith, length-write_uint order 4 tid) in
    let read : native_uint order (take 4 (write_uint order 4 tid)) ≡ tid =
      ap (native_uint order) (take_whole (write_uint order 4 tid) 4 (length-write_uint order 4 tid))
      ∙ native_uint-write_uint order 4 tid (omega (arith, h)) in
    rw (long, read) refl

aggregate_found :
    (order : ByteOrder) (tid : ℕ) (payload : Bytes) (enabled known : Bool)
    → tid < 2 ^ 32
    → aggregate_counters order tid enabled known
        (record { response_pid = tid; stats_payload = some payload })
      ≡ some (decode_delay_counters order payload enabled known)
aggregate_found order tid payload enabled known h =
    let same : nat_beq tid (tid % 2 ^ 32) ≡ true = ground (arith, h) in rw same refl

aggregate_fits :
    (order : ByteOrder) (tid : ℕ) (payload : Bytes)
    → 20 + length payload < 2 ^ 16
    → FitsField (aggregate_attribute order tid payload)
unfolding write_attributes
aggregate_fits order tid payload fits =
    let pid = request_attribute order 1 (write_uint order 4 tid) in
    let stats = request_attribute order 3 payload in
    record {
      type_id = omega arith;
      size = omega (
        arith,
        fits,
        length-append pid (stats ++ []),
        length-append stats [],
        length-request_attribute order 1 (write_uint order 4 tid),
        length-request_attribute order 3 payload,
        length-write_uint order 4 tid,
      );
    }

-- decodeTaskstatsResponse of a response that names the thread, after a header of four bytes, is what
-- decodeDelayCounters makes of its counters, in either byte order: the tid has 32 bits, and the
-- counters fit in the attributes.
pub decode_taskstats_response-write_attributes :
    (order : ByteOrder) (header payload : Bytes) (tid : ℕ) (enabled known : Bool)
    → length header ≡ 4
    → tid < 2 ^ 32
    → 20 + length payload < 2 ^ 16
    → decode_taskstats_response order
        (header ++ write_attributes order (aggregate_attribute order tid payload ∷ []))
        tid
        enabled
        known
      ≡ some (decode_delay_counters order payload enabled known)
unfolding decode_taskstats_response in_response find_stats in_aggregate
decode_taskstats_response-write_attributes order header payload tid enabled known four small fits =
    let body = write_attributes order (aggregate_attribute order tid payload ∷ []) in
    let long : ltb (length (header ++ body)) 4 ≡ false =
      ground (arith, four, length-append header body) in
    let inner : All FitsField (pid_attribute order tid ∷ stats_attribute payload ∷ []) = (
      record { type_id = omega arith; size = omega (arith, length-write_uint order 4 tid) },
      (record { type_id = omega arith; size = omega (arith, fits) }, tt),
    ) in
    rw
      (
        long,
        drop_front 4 header body four,
        parse_netlink_attributes-write_attributes order (aggregate_attribute order tid payload ∷ [])
            (aggregate_fits order tid payload fits, tt),
      )
      (rw
        (parse_netlink_attributes-write_attributes order
          (pid_attribute order tid ∷ stats_attribute payload ∷ []) inner)
        (ap
            (λ found.
              or_later (aggregate_counters order tid enabled known found) (some (err other)))
            (found_aggregate order tid payload small)
          ∙ ap (λ c. or_later c (some (err other)))
              (aggregate_found order tid payload enabled known small)))
