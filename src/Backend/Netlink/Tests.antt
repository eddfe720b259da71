-- ===== src/Backend/Netlink/Tests.antt =====
-- Concrete netlink messages.
use tsastat.Prelude.{◌≡◌, refl, true, some, List, [], ◌∷◌, ◌++◌, arith, Returns}
use tsastat.Text.{Bytes, drop}
use tsastat.Text.Binary.{little_endian, big_endian}
use tsastat.Model.Sources.{ok}
use tsastat.Backend.Netlink.{
  NetlinkAttribute, zero_bytes, decode_taskstats_response, parse_netlink_attributes,
  build_netlink_request,
}
use tsastat.Backend.Netlink.Attributes.{write_attributes}
use tsastat.Backend.Netlink.Responses.{Arrival, datagram, netlink_stats, netlink_stats-Ends}
use tsastat.Backend.Taskstats.Decode.{decode_delay_counters}
use tsastat.Backend.Netlink.Answers.{
  aggregate_attribute, decode_taskstats_response-write_attributes,
}
use tsastat.Backend.Netlink.Requests.{
  parse_netlink_attributes-write_attributes, Says, build_netlink_request-Says,
}

-- The name of the family, with its zero byte.
abbrev family_name : NetlinkAttribute
family_name = record {
  type_id = 2;
  bytes = b'T' ∷ b'A' ∷ b'S' ∷ b'K' ∷ b'S' ∷ b'T' ∷ b'A' ∷ b'T' ∷ b'S' ∷ 0 ∷ [];
}

abbrev thread_id : NetlinkAttribute
thread_id = record { type_id = 1; bytes = 7 ∷ 0 ∷ 0 ∷ 0 ∷ [] }

-- A message that is too short, and one with an impossible size.
abbrev arrivals : List Arrival
arrivals =
    datagram (1 ∷ 2 ∷ 3 ∷ [])
    ∷ datagram (9 ∷ 0 ∷ 0 ∷ 0 ∷ 0 ∷ 0 ∷ 0 ∷ 0 ∷ 1 ∷ 0 ∷ 0 ∷ 0 ∷ 0 ∷ 0 ∷ 0 ∷ 0 ∷ [])
    ∷ []

netlink_stats-ends_example :
    Returns (netlink_stats little_endian 1 arrivals 7 true true) (λ _. Unit {0})
netlink_stats-ends_example = netlink_stats-Ends little_endian 1 arrivals 7 true true

parse_netlink_attributes-write_attributes_example :
    parse_netlink_attributes big_endian (write_attributes big_endian (family_name ∷ thread_id ∷ []))
    ≡ some (ok (family_name ∷ thread_id ∷ []))
parse_netlink_attributes-write_attributes_example =
    parse_netlink_attributes-write_attributes big_endian (family_name ∷ thread_id ∷ []) (
      record { type_id = omega arith; size = omega arith },
      (record { type_id = omega arith; size = omega arith }, tt),
    )

build_netlink_request-Says_example :
    Says little_endian 16 3 1 1 99
      (build_netlink_request little_endian 16 3 1 1 99 family_name.type_id family_name.bytes)
    × (parse_netlink_attributes little_endian (
          drop 20
            (build_netlink_request little_endian 16 3 1 1 99 family_name.type_id family_name.bytes))
        ≡ some (ok (family_name ∷ [])))
build_netlink_request-Says_example =
    build_netlink_request-Says little_endian 16 3 1 1 99 family_name
      (record { type_id = omega arith; size = omega arith }) (omega arith) (omega arith)
      (omega arith)

-- The answer for thread 7, with a payload of version 9.
abbrev payload : Bytes
payload = 9 ∷ 0 ∷ zero_bytes 62

decode_taskstats_response-write_attributes_example :
    decode_taskstats_response little_endian
      ((1 ∷ 1 ∷ 0 ∷ 0 ∷ [])
        ++ write_attributes little_endian (aggregate_attribute little_endian 7 payload ∷ []))
      7
      true
      true
    ≡ some (decode_delay_counters little_endian payload true true)
decode_taskstats_response-write_attributes_example =
    decode_taskstats_response-write_attributes little_endian (1 ∷ 1 ∷ 0 ∷ 0 ∷ []) payload 7 true
      true refl (omega arith) (ground arith)
