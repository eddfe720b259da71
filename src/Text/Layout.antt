-- ===== src/Text/Layout.antt =====
-- Numbers at their places in a record of bytes.
use tsastat.Prelude.{ℕ, ◌<◌, ◌≡◌, ap, ◌∙◌, ◌++◌}
use tsastat.Text.{Bytes, length, take, drop}
use tsastat.Text.Slices.{take_front, drop_front, length-append}
use tsastat.Text.Binary.{
  ByteOrder, native_uint, span, write_uint, native_uint-write_uint, length-write_uint,
}

-- How long a record is, by its parts.
pub ruleset sizes = (length-append, length-write_uint)

-- A number is read where it stands.
pub field_at :
    (order : ByteOrder) (size offset n : ℕ) (bs before rest : Bytes)
    → bs ≡ before ++ (write_uint order size n ++ rest)
    → length before ≡ offset
    → n < span size
    → native_uint order (take size (drop offset bs)) ≡ n
field_at order size offset n bs before rest parts at h =
    ap (λ xs. native_uint order (take size (drop offset xs))) parts
    ∙ ap (λ xs. native_uint order (take size xs))
        (drop_front offset before (write_uint order size n ++ rest) at)
    ∙ ap (native_uint order)
        (take_front size (write_uint order size n) rest (length-write_uint order size n))
    ∙ native_uint-write_uint order size n h
