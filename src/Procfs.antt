-- ===== src/Procfs.antt =====
-- internal/procfs/parser.go: the lines of /proc/<pid>/task/<tid>/stat and schedstat.
pub mod RoundTrip
pub mod Bounds
pub mod Tests
use tsastat.Prelude.{
  ℕ, suc, Bool, true, false, Option, none, some, List, [], ◌∷◌, ltb, nat_beq, not, if◌then◌else◌,
}
use tsastat.Text.{
  Bytes, length, take, drop, get_elem?, is_empty, index_byte, last_index_byte, trim_space, fields,
  parse_int, parse_uint,
}

-- The tid is an int, as a bit pattern.
pub record TaskStat : Type 0 where
  pub tid : ℕ
  pub comm : Bytes
  pub state : ℕ
  pub start_time_ticks : ℕ

pub record Schedstat : Type 0 where
  pub on_cpu_nanoseconds : ℕ
  pub runqueue_nanoseconds : ℕ
  pub timeslices : ℕ

-- What makes a line malformed.
pub data Malformed : Type 0 where
  missing_open_parenthesis missing_close_parenthesis missing_tid invalid_tid : Malformed
  missing_state missing_start_time invalid_state invalid_start_time : Malformed
  too_few_fields : ℕ → Malformed
  invalid_field : ℕ → Malformed

-- A value, or an error.
pub data Parsed (A : Type 0) : Type 0 where
  parsed : A → Parsed A
  malformed : Malformed → Parsed A

infixl 5 ◌>>=◌
abbrev pub ◌>>=◌ : {A B : Type 0} → Parsed A → (A → Parsed B) → Parsed B
parsed a >>= f = f a
malformed m >>= f = malformed m

abbrev pub or_malformed : {A : Type 0} → Malformed → Option A → Parsed A
or_malformed m none = malformed m
or_malformed m (some a) = parsed a

abbrev pub refuse_if : Bool → Malformed → Parsed (Unit {0})
refuse_if b m = if b then malformed m else parsed tt

-- fields[0] is one byte.
abbrev pub state_byte : Bytes → Parsed ℕ
state_byte (b ∷ []) = parsed b
state_byte _ = malformed invalid_state

-- The positions of the first `(` and the last `)`.
unfoldable pub parentheses : Bytes → Parsed (ℕ × ℕ)
parentheses line = do
  open_at ← or_malformed missing_open_parenthesis (index_byte b'(' line)
  close_at ← or_malformed missing_close_parenthesis (last_index_byte b')' line)
  _ ← refuse_if (ltb close_at open_at) missing_close_parenthesis
  parsed (open_at, close_at)

-- The tid before the parentheses.
unfoldable pub stat_tid : Bytes → Parsed ℕ
stat_tid before = do
  _ ← refuse_if (is_empty (trim_space before)) missing_tid
  or_malformed invalid_tid (parse_int (trim_space before))

-- The state and the start time, from the fields after the parentheses.
unfoldable pub stat_fields : List Bytes → Parsed (ℕ × ℕ)
stat_fields fs = do
  first ← or_malformed missing_state (get_elem? fs 0)
  start ← or_malformed missing_start_time (get_elem? fs 19)
  state ← state_byte first
  ticks ← or_malformed invalid_start_time (parse_uint start)
  parsed (state, ticks)

unfoldable pub parse_proc_stat_line : Bytes → Parsed TaskStat
parse_proc_stat_line line = do
  (open_at, close_at) ← parentheses line
  tid ← stat_tid (take open_at line)
  (state, ticks) ← stat_fields (fields (drop (suc close_at) line))
  parsed (record {
    tid = tid;
    comm = drop (suc open_at) (take close_at line);
    state = state;
    start_time_ticks = ticks;
  })

-- The first three fields; the code's loop stops at the first that is no number.
unfoldable pub schedstat_values : List Bytes → Parsed Schedstat
schedstat_values (a ∷ b ∷ c ∷ rest) = do
  on_cpu ← or_malformed (invalid_field 1) (parse_uint a)
  runqueue ← or_malformed (invalid_field 2) (parse_uint b)
  timeslices ← or_malformed (invalid_field 3) (parse_uint c)
  parsed (record {
    on_cpu_nanoseconds = on_cpu;
    runqueue_nanoseconds = runqueue;
    timeslices = timeslices;
  })
schedstat_values fs = malformed (too_few_fields (length fs))

unfoldable pub parse_schedstat_line : Bytes → Parsed Schedstat
parse_schedstat_line line = schedstat_values (fields line)
