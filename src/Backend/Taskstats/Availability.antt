-- ===== src/Backend/Taskstats/Availability.antt =====
-- Which counters a payload has, and that they are in range.
use tsastat.Prelude.{
  ℕ, ◌+◌, ◌≤◌, ◌<◌, ◌≡◌, refl, inl, inr, Bool, true, false, ◌||◌, ◌&&◌, Bool-cases, arith, ltb, leb,
  nat_beq, not,
}
use tsastat.Text.{Bytes, length}
use tsastat.Model.Sample.{DelayCounters}
use tsastat.Model.Sources.{Fallible, ok, err, Gives}
use tsastat.Text.Binary.{ByteOrder}
use tsastat.Backend.Taskstats.Decode.{
  uint_at, decode_delay_counter, decode_versioned_delay_counter, decode_delay_counters,
}

-- A counter is there if the version has it and the payload reaches to its end.
abbrev pub reaches : Bytes → ℕ → ℕ → ℕ → Bool
reaches payload version minimum size = leb minimum version && leb size (length payload)

pub record IsAvailable (payload : Bytes) (d : DelayCounters) : Type 0 where
  pub cpu : d.cpu.available ≡ true
  pub block_io : d.block_io.available ≡ true
  pub swap_in : d.swap_in.available ≡ true
  pub reclaim : d.reclaim.available ≡ reaches payload d.version 7 328
  pub thrashing : d.thrashing.available ≡ reaches payload d.version 9 344
  pub compaction : d.compaction.available ≡ reaches payload d.version 11 368
  pub write_protect_copy : d.write_protect_copy.available ≡ reaches payload d.version 13 416
  pub irq : d.irq.available ≡ reaches payload d.version 14 432

counter_available :
    (order : ByteOrder) (payload : Bytes) (version minimum count total : ℕ)
    → count ≤ total
    → (decode_versioned_delay_counter order payload version minimum count total).available
      ≡ reaches payload version minimum (total + 8)
unfolding decode_versioned_delay_counter decode_delay_counter
counter_available order payload version minimum count total h = ground (arith, h)

-- The payloads that are refused: too short, of no version, or of version 15.
abbrev pub is_refused : ByteOrder → Bytes → Bool
is_refused order payload =
    ltb (length payload) 64
    || nat_beq (uint_at order 2 0 payload) 0
    || nat_beq (uint_at order 2 0 payload) 15

abbrev pub is_ok : {A : Type 0} → Fallible A → Bool
is_ok (ok a) = true
is_ok (err e) = false

first_counter :
    (order : ByteOrder) (payload : Bytes) (version count total : ℕ)
    → count ≤ total
    → total + 8 ≤ length payload
    → 0 < version
    → (decode_versioned_delay_counter order payload version 1 count total).available ≡ true
unfolding decode_versioned_delay_counter decode_delay_counter
first_counter order payload version count total h k v = ground (arith, h, k, v)

-- A payload is decoded unless it is refused, and then a counter is available exactly if the version
-- has it and the payload reaches to its end; the first three always are.
pub decode_delay_counters-IsAvailable :
    (order : ByteOrder) (payload : Bytes) (enabled known : Bool)
    → (is_ok (decode_delay_counters order payload enabled known) ≡ not (is_refused order payload))
      × Gives (IsAvailable payload) (decode_delay_counters order payload enabled known)
unfolding decode_delay_counters
decode_delay_counters-IsAvailable order payload enabled known =
    let version = uint_at order 2 0 payload in
    elim (Bool-cases (ltb (length payload) 64)) [
      | inl short ↦ rw short (refl, tt)
      | inr long ↦ elim (Bool-cases (nat_beq version 0)) [
        | inl none_at_all ↦ rw (long, none_at_all) (refl, tt)
        | inr some_version ↦ elim (Bool-cases (nat_beq version 15)) [
          | inl fifteen ↦ rw (long, some_version, fifteen) (refl, tt)
          | inr good ↦
              let size : 64 ≤ length payload = ground (arith, long) in
              let positive : 0 < version = ground (arith, some_version) in
              rw (long, some_version, good)
                (
                  refl,
                  record {
                    cpu =
                        first_counter order payload version 16 24 (omega arith)
                          (omega (arith, size)) positive;
                    block_io =
                        first_counter order payload version 32 40 (omega arith)
                          (omega (arith, size)) positive;
                    swap_in =
                        first_counter order payload version 48 56 (omega arith)
                          (omega (arith, size)) positive;
                    reclaim = counter_available order payload version 7 312 320 (omega arith);
                    thrashing = counter_available order payload version 9 328 336 (omega arith);
                    compaction = counter_available order payload version 11 352 360 (omega arith);
                    write_protect_copy =
                        counter_available order payload version 13 400 408 (omega arith);
                    irq = counter_available order payload version 14 416 424 (omega arith);
                  },
                )
        ]
      ]
    ]
