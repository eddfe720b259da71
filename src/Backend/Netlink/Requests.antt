-- ===== src/Backend/Netlink/Requests.antt =====
-- Attributes are read back, and so is the attribute of a request.
use tsastat.Prelude.{
  ℕ, zero, suc, ◌+◌, ◌%◌, ◌^◌, ◌<◌, ◌≡◌, refl, ap, ◌∙◌, sym, some, List, [], ◌∷◌, ◌++◌, arith,
  ◌>>=◌, All,
}
use tsastat.Text.{Bytes, length, take, drop}
use tsastat.Text.Fields.{append_assoc}
use tsastat.Text.Slices.{drop_front, length-append}
use tsastat.Text.Binary.{ByteOrder, native_uint, write_uint, length-write_uint}
use tsastat.Text.Layout.{sizes, field_at}
use tsastat.Model.Sources.{ok}
use tsastat.Backend.Netlink.{
  NetlinkAttribute, align4, prepend, attribute_loop, parse_netlink_attributes, request_attribute,
  request_header, build_netlink_request,
}
use tsastat.Backend.Netlink.Attributes.{
  write_attributes, FitsField, length-request_attribute, attribute_loop_step,
}

attribute_loop-write_attributes :
    (order : ByteOrder) (attributes : List NetlinkAttribute) (fuel : ℕ)
    → All FitsField attributes
    → length (write_attributes order attributes) < fuel
    → attribute_loop order fuel (write_attributes order attributes) ≡ some (ok attributes)
unfolding attribute_loop write_attributes
attribute_loop-write_attributes order attributes zero f enough = absurd (omega (arith, enough))
attribute_loop-write_attributes order [] (suc fuel) f enough = refl
attribute_loop-write_attributes order (a ∷ attributes) (suc fuel) f enough =
    attribute_loop_step order a f.0 (write_attributes order attributes) fuel
    ∙ ap (λ r. r >>= λ rest. some (prepend a rest))
        (attribute_loop-write_attributes order attributes fuel f.1 (
          omega (
            arith,
            enough,
            length-append (request_attribute order a.type_id a.bytes)
                (write_attributes order attributes),
            length-request_attribute order a.type_id a.bytes,
          )))

-- parseNetlinkAttributes reads back any attributes that lie one after another, aligned, in either byte
-- order: their types have 14 bits, and the size of each fits in 16.
pub parse_netlink_attributes-write_attributes :
    (order : ByteOrder) (attributes : List NetlinkAttribute)
    → All FitsField attributes
    → parse_netlink_attributes order (write_attributes order attributes) ≡ some (ok attributes)
unfolding parse_netlink_attributes
parse_netlink_attributes-write_attributes order attributes f =
    attribute_loop-write_attributes order attributes
      (suc (length (write_attributes order attributes))) f (omega arith)

append_nil : (bs : Bytes) → bs ++ [] ≡ bs
append_nil [] = refl
append_nil (b ∷ bs) = ap (λ rest. b ∷ rest) (append_nil bs)

length-request_header :
    (order : ByteOrder) (total message_type command version sequence port : ℕ)
    → length (request_header order total message_type command version sequence port) ≡ 20
unfolding request_header
length-request_header order total message_type command version sequence port = simp sizes refl

-- What the two headers of a request say: its length, its type, that it is a request (NLM_F_REQUEST is
-- 1), its sequence number and its port, and then the command and the version of the family.
pub record Says (order : ByteOrder) (message_type command version sequence port : ℕ)
    (request : Bytes) : Type 0 where
  pub total : native_uint order (take 4 request) ≡ length request
  pub of_type : native_uint order (take 2 (drop 4 request)) ≡ message_type
  pub flags : native_uint order (take 2 (drop 6 request)) ≡ 1
  pub number : native_uint order (take 4 (drop 8 request)) ≡ sequence
  pub of_port : native_uint order (take 4 (drop 12 request)) ≡ port
  pub family : take 4 (drop 16 request) ≡ command ∷ version ∷ 0 ∷ 0 ∷ []

module _ (order : ByteOrder) (message_type command version sequence port : ℕ) (a : NetlinkAttribute)
    (f : FitsField a) (type_fits : message_type < 2 ^ 16) (sequence_fits : sequence < 2 ^ 32)
    (port_fits : port < 2 ^ 32) where
  abbrev request : Bytes
  request = build_netlink_request order message_type command version sequence port a.type_id a.bytes

  abbrev header : Bytes
  header =
      request_header order (20 + align4 (4 + length a.bytes)) message_type command version sequence
        port

  abbrev attribute : Bytes
  attribute = request_attribute order a.type_id a.bytes

  length-request : length request ≡ 20 + align4 (4 + length a.bytes)
  unfolding build_netlink_request
  length-request = omega (
    arith,
    length-append header attribute,
    length-request_header order (20 + align4 (4 + length a.bytes)) message_type command version
        sequence port,
    length-request_attribute order a.type_id a.bytes,
  )

  request-Says : Says order message_type command version sequence port request
  unfolding build_netlink_request request_header
  request-Says =
      let total = 20 + align4 (4 + length a.bytes) in
      let w₁ = write_uint order 4 (total % 2 ^ 32) in
      let w₂ = write_uint order 2 message_type in
      let w₃ = write_uint order 2 1 in
      let w₄ = write_uint order 4 sequence in
      let w₅ = write_uint order 4 port in
      let family : Bytes = command ∷ version ∷ 0 ∷ 0 ∷ [] in
      let whole : request ≡ w₁ ++ (w₂ ++ (w₃ ++ (w₄ ++ (w₅ ++ (family ++ attribute))))) =
        simp append_assoc refl in
      record {
        total =
            field_at order 4 0 (total % 2 ^ 32) request []
              (w₂ ++ (w₃ ++ (w₄ ++ (w₅ ++ (family ++ attribute))))) whole refl (omega arith)
            ∙ omega (arith, length-request, f.size);
        of_type =
            field_at order 2 4 message_type request w₁ (w₃ ++ (w₄ ++ (w₅ ++ (family ++ attribute))))
              whole (length-write_uint order 4 (total % 2 ^ 32)) type_fits;
        flags =
            field_at order 2 6 1 request (w₁ ++ w₂) (w₄ ++ (w₅ ++ (family ++ attribute)))
              (simp append_assoc refl) (simp sizes refl) (omega arith);
        number =
            field_at order 4 8 sequence request (w₁ ++ (w₂ ++ w₃)) (w₅ ++ (family ++ attribute))
              (simp append_assoc refl) (simp sizes refl) sequence_fits;
        of_port =
            field_at order 4 12 port request (w₁ ++ (w₂ ++ (w₃ ++ w₄))) (family ++ attribute)
              (simp append_assoc refl) (simp sizes refl) port_fits;
        family =
            let before = w₁ ++ (w₂ ++ (w₃ ++ (w₄ ++ w₅))) in
            let parts : request ≡ before ++ (family ++ attribute) = simp append_assoc refl in
            let sixteen : length before ≡ 16 = simp sizes refl in
            ap (λ bs. take 4 (drop 16 bs)) parts
            ∙ ap (take 4) (drop_front 16 before (family ++ attribute) sixteen);
      }

  request_attributes : parse_netlink_attributes order (drop 20 request) ≡ some (ok (a ∷ []))
  unfolding build_netlink_request write_attributes
  request_attributes =
      let twenty =
        length-request_header order (20 + align4 (4 + length a.bytes)) message_type command version
          sequence port in
      ap (parse_netlink_attributes order)
        (drop_front 20 header attribute twenty ∙ sym (append_nil attribute))
      ∙ parse_netlink_attributes-write_attributes order (a ∷ []) (f, tt)

  -- The headers of a request say its length in bytes, the message type, the request flag, the sequence
  -- number, the port, the command and its version, each at its place, and after these 20 bytes
  -- parseNetlinkAttributes finds exactly the attribute, in either byte order. The numbers fit in their
  -- fields, the attribute's type has 14 bits, and its size fits in 16.
  pub build_netlink_request-Says :
      Says order message_type command version sequence port
        (build_netlink_request order message_type command version sequence port a.type_id a.bytes)
      × (parse_netlink_attributes order (
            drop 20 (
              build_netlink_request order message_type command version sequence port a.type_id
                a.bytes))
          ≡ some (ok (a ∷ [])))
  build_netlink_request-Says = (request-Says, request_attributes)
