-- ===== src/Text/Binary.antt =====
-- The package encoding/binary: numbers in the byte order of the machine.
use tsastat.Prelude.{
  ℕ, zero, suc, ◌+◌, ◌*◌, ◌/◌, ◌%◌, ◌<◌, ◌≡◌, refl, ap, ◌∙◌, [], ◌∷◌, ◌++◌, arith,
}
use tsastat.Text.{Bytes, length}

-- The byte order of the machine.
pub data ByteOrder : Type 0 where
  little_endian big_endian : ByteOrder

unfoldable pub little : Bytes → ℕ
little [] = 0
little (b ∷ bs) = b + 256 * little bs

unfoldable pub big_after : ℕ → Bytes → ℕ
big_after n [] = n
big_after n (b ∷ bs) = big_after (256 * n + b) bs

-- binary.NativeEndian.Uint16, Uint32 and Uint64, of as many bytes.
unfoldable pub native_uint : ByteOrder → Bytes → ℕ
native_uint little_endian bs = little bs
native_uint big_endian bs = big_after 0 bs

-- The numbers that so many bytes can hold.
abbrev pub span : ℕ → ℕ
span zero = 1
span (suc n) = 256 * span n

-- The bytes of a number, as binary.Write puts them.
unfoldable pub write_little : ℕ → ℕ → Bytes
write_little zero n = []
write_little (suc size) n = n % 256 ∷ write_little size (n / 256)

unfoldable pub write_big : ℕ → ℕ → Bytes
write_big zero n = []
write_big (suc size) n = write_big size (n / 256) ++ (n % 256 ∷ [])

unfoldable pub write_uint : ByteOrder → ℕ → ℕ → Bytes
write_uint little_endian size n = write_little size n
write_uint big_endian size n = write_big size n

little-write_little : (size n : ℕ) → n < span size → little (write_little size n) ≡ n
unfolding little write_little
little-write_little zero n h = omega (arith, h)
little-write_little (suc size) n h =
    omega (arith, h, little-write_little size (n / 256) (omega (arith, h)))

big_after-append :
    (m : ℕ) (bs : Bytes) (b : ℕ) → big_after m (bs ++ (b ∷ [])) ≡ 256 * big_after m bs + b
unfolding big_after
big_after-append m [] b = refl
big_after-append m (c ∷ bs) b = big_after-append (256 * m + c) bs b

big_after-write_big : (size n : ℕ) → n < span size → big_after 0 (write_big size n) ≡ n
unfolding big_after write_big
big_after-write_big zero n h = omega (arith, h)
big_after-write_big (suc size) n h = omega (
  arith,
  big_after-append 0 (write_big size (n / 256)) (n % 256),
  big_after-write_big size (n / 256) (omega (arith, h)),
)

-- A number that fits is read back.
pub native_uint-write_uint :
    (order : ByteOrder) (size n : ℕ)
    → n < span size
    → native_uint order (write_uint order size n) ≡ n
unfolding native_uint write_uint
native_uint-write_uint little_endian size n h = little-write_little size n h
native_uint-write_uint big_endian size n h = big_after-write_big size n h

length-append_one : (bs : Bytes) (b : ℕ) → length (bs ++ (b ∷ [])) ≡ suc (length bs)
length-append_one [] b = refl
length-append_one (c ∷ bs) b = ap suc (length-append_one bs b)

pub length-write_uint : (order : ByteOrder) (size n : ℕ) → length (write_uint order size n) ≡ size
unfolding write_uint write_little write_big
length-write_uint little_endian zero n = refl
length-write_uint little_endian (suc size) n =
    ap suc (length-write_uint little_endian size (n / 256))
length-write_uint big_endian zero n = refl
length-write_uint big_endian (suc size) n =
    length-append_one (write_big size (n / 256)) (n % 256)
    ∙ ap suc (length-write_uint big_endian size (n / 256))
