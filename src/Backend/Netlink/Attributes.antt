-- ===== src/Backend/Netlink/Attributes.antt =====
-- The attributes of a request are read back, and the loop over attributes ends.
use tsastat.Prelude.{
  ℕ, zero, suc, ◌+◌, ◌-◌, ◌%◌, ◌^◌, ◌≤◌, ◌<◌, ◌≡◌, refl, ap, ◌∙◌, sym, false, ◌||◌, some, List, [],
  ◌∷◌, ◌++◌, arith, ltb, ◌>>=◌, Returns, Returns-some, Returns-bind, Returns-if,
}
use tsastat.Text.{Bytes, length, take, drop, is_empty}
use tsastat.Text.Slices.{take_front, drop_front, length-append, length-drop}
use tsastat.Text.Fields.{append_assoc}
use tsastat.Text.Binary.{
  ByteOrder, native_uint, write_uint, native_uint-write_uint, length-write_uint,
}
use tsastat.Backend.Netlink.{
  NetlinkAttribute, align4, prepend, front_attribute, attribute_loop, parse_netlink_attributes,
  zero_bytes, request_attribute,
}

length-zero_bytes : (n : ℕ) → length (zero_bytes n) ≡ n
length-zero_bytes zero = refl
length-zero_bytes (suc n) = ap suc (length-zero_bytes n)

-- The loop ends on any bytes, in either byte order.
attribute_loop-Ends :
    (order : ByteOrder) (fuel : ℕ) (left : Bytes)
    → length left < fuel
    → Returns (attribute_loop order fuel left) (λ _. Unit {0})
unfolding attribute_loop
attribute_loop-Ends order zero left enough = absurd (omega arith)
attribute_loop-Ends order (suc fuel) left enough =
    let size = native_uint order (take 2 left) in
    Returns-if (is_empty left) _ _ (λ _. Returns-some _ tt)
      λ _.
        Returns-if (ltb (length left) 4) _ _ (λ _. Returns-some _ tt)
          λ long.
            Returns-if (ltb size 4 || ltb (length left) size) _ _ (λ _. Returns-some _ tt)
              λ fits.
                Returns-bind (attribute_loop order fuel (drop (align4 size) left)) _
                  (attribute_loop-Ends order fuel (drop (align4 size) left)
                    (ground (arith, enough, long, fits, length-drop (align4 size) left)))
                  λ attributes _. Returns-some _ tt

-- parseNetlinkAttributes ends on any payload.
pub parse_netlink_attributes-Ends :
    (order : ByteOrder) (payload : Bytes)
    → Returns (parse_netlink_attributes order payload) (λ _. Unit {0})
unfolding parse_netlink_attributes
parse_netlink_attributes-Ends order payload =
    attribute_loop-Ends order (suc (length payload)) payload (omega arith)

-- The attributes as they lie one after another.
unfoldable pub write_attributes : ByteOrder → List NetlinkAttribute → Bytes
write_attributes order [] = []
write_attributes order (a ∷ attributes) =
    request_attribute order a.type_id a.bytes ++ write_attributes order attributes

-- An attribute whose size and type fit in their fields.
pub record FitsField (a : NetlinkAttribute) : Type 0 where
  pub type_id : a.type_id < 0x4000
  pub size : 4 + length a.bytes < 2 ^ 16

pub length-request_attribute :
    (order : ByteOrder) (type_id : ℕ) (bytes : Bytes)
    → length (request_attribute order type_id bytes) ≡ align4 (4 + length bytes)
unfolding request_attribute
length-request_attribute order type_id bytes =
    let size = 4 + length bytes in
    let tail = bytes ++ zero_bytes (align4 size - size) in
    omega (
      arith,
      length-append (write_uint order 2 (size % 2 ^ 16)) (write_uint order 2 type_id ++ tail),
      length-append (write_uint order 2 type_id) tail,
      length-append bytes (zero_bytes (align4 size - size)),
      length-zero_bytes (align4 size - size),
      length-write_uint order 2 (size % 2 ^ 16),
      length-write_uint order 2 type_id,
    )

nonempty : (bs : Bytes) → 0 < length bs → is_empty bs ≡ false
nonempty [] h = absurd (omega (arith, h))
nonempty (b ∷ bs) h = refl

module _ (order : ByteOrder) (a : NetlinkAttribute) (f : FitsField a) (left : Bytes) where
  abbrev size : ℕ
  size = 4 + length a.bytes

  abbrev sized : Bytes
  sized = write_uint order 2 (size % 2 ^ 16)

  abbrev typed : Bytes
  typed = write_uint order 2 a.type_id

  abbrev padding : Bytes
  padding = zero_bytes (align4 size - size)

  abbrev whole : Bytes
  whole = request_attribute order a.type_id a.bytes ++ left

  -- The parts of the bytes one after another, and with those of the attribute in front.
  parts : whole ≡ sized ++ (typed ++ (a.bytes ++ (padding ++ left)))
  unfolding request_attribute
  parts =
      append_assoc sized (typed ++ (a.bytes ++ padding)) left
      ∙ ap (λ bs. sized ++ bs)
          (append_assoc typed (a.bytes ++ padding) left
            ∙ ap (λ bs. typed ++ bs) (append_assoc a.bytes padding left))

  front : whole ≡ ((sized ++ typed) ++ a.bytes) ++ (padding ++ left)
  front =
      parts
      ∙ sym (
          append_assoc (sized ++ typed) a.bytes (padding ++ left)
          ∙ append_assoc sized typed (a.bytes ++ (padding ++ left)))

  size_read : native_uint order (take 2 whole) ≡ size
  size_read =
      ap (λ bs. native_uint order (take 2 bs)) parts
      ∙ ap (native_uint order) (take_front 2 sized _ (length-write_uint order 2 (size % 2 ^ 16)))
      ∙ native_uint-write_uint order 2 (size % 2 ^ 16) (omega arith)
      ∙ omega (arith, f.size)

  type_read : native_uint order (take 2 (drop 2 whole)) ≡ a.type_id
  type_read =
      ap (λ bs. native_uint order (take 2 (drop 2 bs))) parts
      ∙ ap (λ bs. native_uint order (take 2 bs))
          (drop_front 2 sized _ (length-write_uint order 2 (size % 2 ^ 16)))
      ∙ ap (native_uint order) (take_front 2 typed _ (length-write_uint order 2 a.type_id))
      ∙ native_uint-write_uint order 2 a.type_id (omega (arith, f.type_id))

  bytes_read : drop 4 (take size whole) ≡ a.bytes
  bytes_read =
      let two = length-write_uint order 2 (size % 2 ^ 16) in
      let two' = length-write_uint order 2 a.type_id in
      ap (λ bs. drop 4 (take size bs)) front
      ∙ ap (drop 4) (
          take_front size ((sized ++ typed) ++ a.bytes) (padding ++ left) (
            omega (
              arith,
              two,
              two',
              length-append (sized ++ typed) a.bytes,
              length-append sized typed,
            )))
      ∙ drop_front 4 (sized ++ typed) a.bytes (omega (arith, two, two', length-append sized typed))

  rest_read : drop (align4 size) whole ≡ left
  rest_read =
      drop_front (align4 size) (request_attribute order a.type_id a.bytes) left
        (length-request_attribute order a.type_id a.bytes)

  long_enough : size ≤ length whole
  long_enough = omega (
    arith,
    length-append (request_attribute order a.type_id a.bytes) left,
    length-request_attribute order a.type_id a.bytes,
  )

  same_attribute : front_attribute order size whole ≡ a
  same_attribute =
      let masked : a.type_id % 0x4000 ≡ a.type_id = omega (arith, f.type_id) in
      rw (type_read, bytes_read, masked) refl

  -- One round reads the attribute in front.
  pub attribute_loop_step :
      (fuel : ℕ)
      → attribute_loop order (suc fuel) whole
        ≡ (do attributes ← attribute_loop order fuel left; some (prepend a attributes))
  unfolding attribute_loop
  attribute_loop_step fuel =
      let some_left : is_empty whole ≡ false = nonempty whole (omega (arith, long_enough)) in
      let long : ltb (length whole) 4 ≡ false = ground (arith, long_enough) in
      let fits : (ltb size 4 || ltb (length whole) size) ≡ false = ground (arith, long_enough) in
      rw (some_left, long, size_read, fits, rest_read, same_attribute) refl
