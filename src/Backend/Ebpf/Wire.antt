-- ===== src/Backend/Ebpf/Wire.antt =====
-- The records that the kernel program writes are read back.
use tsastat.Prelude.{ℕ, ◌^◌, ◌<◌, ◌≡◌, refl, ap, ◌∙◌, subst, [], ◌∷◌, ◌++◌, word}
use tsastat.Text.{Bytes, length, take, drop}
use tsastat.Text.Slices.{
  take_front, drop_front, length-append, take-length, IsFree, index_byte-first,
}
use tsastat.Text.Binary.{
  ByteOrder, native_uint, span, write_uint, native_uint-write_uint, length-write_uint,
}
use tsastat.Backend.Ebpf.{RawEvent, read_raw_event, null_terminated_string}

-- The record as the kernel program lays it out: struct scheduler_event of bpf/scheduler.c.
unfoldable pub write_raw_event : ByteOrder → RawEvent → Bytes
write_raw_event order e =
    write_uint order 8 e.timestamp_ns
    ++ (write_uint order 8 e.start_time_ns
        ++ (write_uint order 8 e.state
            ++ (write_uint order 4 e.tgid
                ++ (write_uint order 4 e.tid
                    ++ (write_uint order 4 e.cpu
                        ++ (write_uint order 4 e.kind
                            ++ (write_uint order 4 e.flags
                                ++ (e.comm ++ write_uint order 4 e.padding))))))))

-- The fields fit.
pub record Fits (e : RawEvent) : Type 0 where
  pub timestamp_ns : e.timestamp_ns < word
  pub start_time_ns : e.start_time_ns < word
  pub state : e.state < word
  pub tgid : e.tgid < 2 ^ 32
  pub tid : e.tid < 2 ^ 32
  pub cpu : e.cpu < 2 ^ 32
  pub kind : e.kind < 2 ^ 32
  pub flags : e.flags < 2 ^ 32
  pub comm : length e.comm ≡ 16
  pub padding : e.padding < 2 ^ 32

take_all : (xs : Bytes) (n : ℕ) → length xs ≡ n → take n xs ≡ xs
take_all xs n e = subst (λ m. take m xs ≡ xs) e (whole xs)
  where
    whole : (ys : Bytes) → take (length ys) ys ≡ ys
    whole [] = refl
    whole (y ∷ ys) = ap (λ zs. y ∷ zs) (whole ys)

module _ (order : ByteOrder) where
  -- What is read of a number at the front.
  read_front :
      (size n : ℕ) (rest : Bytes)
      → n < span size
      → native_uint order (take size (write_uint order size n ++ rest)) ≡ n
  read_front size n rest h =
      ap (native_uint order)
        (take_front size (write_uint order size n) rest (length-write_uint order size n))
      ∙ native_uint-write_uint order size n h

  pass : (size n : ℕ) (rest : Bytes) → drop size (write_uint order size n ++ rest) ≡ rest
  pass size n rest = drop_front size (write_uint order size n) rest (length-write_uint order size n)

  pub written_size : (e : RawEvent) → Fits e → length (write_raw_event order e) ≡ 64
  unfolding write_raw_event
  written_size e f = simp (length-append, length-write_uint, f.comm) refl

  -- The fields of a record are read back.
  pub read_raw_event-write_raw_event :
      (e : RawEvent) → Fits e → read_raw_event order (write_raw_event order e) ≡ e
  unfolding read_raw_event write_raw_event
  read_raw_event-write_raw_event e f =
      let r₉ = write_uint order 4 e.padding in
      let r₈ = e.comm ++ r₉ in
      let r₇ = write_uint order 4 e.flags ++ r₈ in
      let r₆ = write_uint order 4 e.kind ++ r₇ in
      let r₅ = write_uint order 4 e.cpu ++ r₆ in
      let r₄ = write_uint order 4 e.tid ++ r₅ in
      let r₃ = write_uint order 4 e.tgid ++ r₄ in
      let r₂ = write_uint order 8 e.state ++ r₃ in
      let r₁ = write_uint order 8 e.start_time_ns ++ r₂ in
      let last : native_uint order (take 4 r₉) ≡ e.padding =
        ap (native_uint order) (take_all r₉ 4 (length-write_uint order 4 e.padding))
        ∙ native_uint-write_uint order 4 e.padding f.padding in
      rw
        (
          pass 8 e.timestamp_ns r₁,
          pass 8 e.start_time_ns r₂,
          pass 8 e.state r₃,
          pass 4 e.tgid r₄,
          pass 4 e.tid r₅,
          pass 4 e.cpu r₆,
          pass 4 e.kind r₇,
          pass 4 e.flags r₈,
          drop_front 16 e.comm r₉ f.comm,
          take_front 16 e.comm r₉ f.comm,
          last,
        )
        (rw
          (
            read_front 8 e.timestamp_ns r₁ f.timestamp_ns,
            read_front 8 e.start_time_ns r₂ f.start_time_ns,
            read_front 8 e.state r₃ f.state,
            read_front 4 e.tgid r₄ f.tgid,
            read_front 4 e.tid r₅ f.tid,
            read_front 4 e.cpu r₆ f.cpu,
            read_front 4 e.kind r₇ f.kind,
            read_front 4 e.flags r₈ f.flags,
          )
          refl)

pub null_terminated_string-name :
    (name rest : Bytes) → IsFree 0 name → null_terminated_string (name ++ (0 ∷ rest)) ≡ name
unfolding null_terminated_string
null_terminated_string-name name rest free =
    rw (index_byte-first 0 name rest free, null_terminated_string) (take-length name (0 ∷ rest))
