-- ===== src/Procfs/RoundTrip.antt =====
-- The parsers read the lines that the kernel writes.
use tsastat.Prelude.{
  ℕ, suc, ◌<◌, ◌≡◌, refl, ap, ◌∙◌, sym, subst, false, some, List, [], ◌∷◌, ◌++◌, arith, ltb,
  nat_beq, All, All-append, word, sign_bit,
}
use tsastat.Text.{Bytes, length, take, drop, get_elem?, is_digit, last_index_byte, fields}
use tsastat.Text.Slices.{
  length-append_least, take-length, drop-suc-length, get_elem?-length, IsFree, index_byte-first,
  last_index_byte-last,
}
use tsastat.Text.Fields.{IsWord, append_assoc, spaced, fields-spaced, trim_space-word}
use tsastat.Text.Numbers.{
  IsDigits, decimal, decimal-IsDecimal, decimal-IsWord, parse_uint-decimal, parse_int-decimal,
}
use tsastat.Procfs.{
  TaskStat, Schedstat, parsed, ◌>>=◌, parentheses, stat_tid, stat_fields, parse_proc_stat_line,
  schedstat_values, parse_schedstat_line,
}

-- A line of `stat`, as proc(5) describes it: the tid, the name in parentheses, and the other fields,
-- of which the state is the first and the start time the twentieth.
unfoldable pub stat_line : TaskStat → List Bytes → List Bytes → Bytes
stat_line t between rest =
    (decimal t.tid ++ (32 ∷ []))
    ++ (b'('
        ∷ (t.comm
            ++ (b')' ∷ spaced ((t.state ∷ []) ∷ (between ++ (decimal t.start_time_ticks ∷ rest))))))

-- A word that has no closing parenthesis.
abbrev pub IsField : Bytes → Type 0
IsField w = IsWord w × IsFree b')' w

-- A task whose line is well-formed. Its name may be any bytes.
pub record IsPrintable (t : TaskStat) : Type 0 where
  pub tid : t.tid < sign_bit
  pub state : IsField (t.state ∷ [])
  pub start : t.start_time_ticks < word

digits-IsFree : (c : ℕ) (bs : Bytes) → is_digit c ≡ false → IsDigits bs → IsFree c bs
digits-IsFree c [] h d = tt
digits-IsFree c (b ∷ bs) h d = (ground (arith, h, d.0), digits-IsFree c bs h d.1)

decimal-IsFree : (c n : ℕ) → is_digit c ≡ false → IsFree c (decimal n)
decimal-IsFree c n h = digits-IsFree c (decimal n) h (decimal-IsDecimal n).digits_only

decimal-IsField : (n : ℕ) → IsField (decimal n)
decimal-IsField n = (decimal-IsWord n, decimal-IsFree b')' n refl)

spaced-IsFree : (ws : List Bytes) → All IsField ws → IsFree b')' (spaced ws)
unfolding spaced
spaced-IsFree [] h = tt
spaced-IsFree (w ∷ ws) h =
    (refl, All-append (λ b. nat_beq b b')' ≡ false) w (spaced ws) h.0.1 (spaced-IsFree ws h.1))

words_of : (ws : List Bytes) → All IsField ws → All IsWord ws
words_of [] h = tt
words_of (w ∷ ws) h = (h.0.0, words_of ws h.1)

stat_fields-words :
    (state ticks : ℕ) (between rest : List Bytes)
    → length between ≡ 18
    → ticks < word
    → stat_fields ((state ∷ []) ∷ (between ++ (decimal ticks ∷ rest))) ≡ parsed (state, ticks)
unfolding stat_fields
stat_fields-words state ticks between rest count small =
    let start : get_elem? (between ++ (decimal ticks ∷ rest)) 18 ≡ some (decimal ticks) =
      ap (λ n. get_elem? (between ++ (decimal ticks ∷ rest)) n) (sym count)
      ∙ get_elem?-length between (decimal ticks) rest in
    rw (start, parse_uint-decimal ticks small) refl

stat_tid-decimal : (tid : ℕ) → tid < sign_bit → stat_tid (decimal tid ++ (32 ∷ [])) ≡ parsed tid
unfolding stat_tid
stat_tid-decimal tid h =
    rw
      (
        trim_space-word (decimal tid) (decimal-IsWord tid),
        (decimal-IsWord tid).0,
        parse_int-decimal tid h,
      )
      refl

-- The line of a name in parentheses: the name reaches from the first opening to the last closing
-- parenthesis.
parse_proc_stat_line-parts :
    (before comm after : Bytes)
    → IsFree b'(' before
    → IsFree b')' after
    → parse_proc_stat_line (before ++ (b'(' ∷ (comm ++ (b')' ∷ after)))) ≡ (do
      tid ← stat_tid before
      (state, ticks) ← stat_fields (fields after)
      parsed (record { tid = tid; comm = comm; state = state; start_time_ticks = ticks }))
unfolding parse_proc_stat_line parentheses
parse_proc_stat_line-parts before comm after free closed =
    let line = before ++ (b'(' ∷ (comm ++ (b')' ∷ after))) in
    let head = before ++ (b'(' ∷ comm) in
    let split : head ++ (b')' ∷ after) ≡ line = append_assoc before (b'(' ∷ comm) (b')' ∷ after) in
    let found = index_byte-first b'(' before (comm ++ (b')' ∷ after)) free in
    let last : last_index_byte b')' line ≡ some (length head) =
      subst (λ l. last_index_byte b')' l ≡ some (length head)) split
        (last_index_byte-last b')' head after closed) in
    let order : ltb (length head) (length before) ≡ false =
      ground (arith, length-append_least before (b'(' ∷ comm)) in
    let front : take (length before) line ≡ before =
      take-length before (b'(' ∷ (comm ++ (b')' ∷ after))) in
    let inside : take (length head) line ≡ head =
      subst (λ l. take (length head) l ≡ head) split (take-length head (b')' ∷ after)) in
    let rest : drop (suc (length head)) line ≡ after =
      subst (λ l. drop (suc (length head)) l ≡ after) split (drop-suc-length head b')' after) in
    rw (found, last, order, front, inside, rest, drop-suc-length before b'(' comm) refl

-- ParseProcStatLine reads back the line of any task with an int64 tid, a state that is neither white
-- space nor a closing parenthesis, and a 64-bit start time: its name may be any bytes, parentheses and
-- spaces included; the 18 fields between the state and the start time, and those after it, are any
-- words without closing parentheses.
pub parse_proc_stat_line-stat_line :
    (t : TaskStat) (between rest : List Bytes)
    → IsPrintable t
    → length between ≡ 18
    → All IsField between
    → All IsField rest
    → parse_proc_stat_line (stat_line t between rest) ≡ parsed t
unfolding stat_line
parse_proc_stat_line-stat_line t between rest p count fs gs =
    let words = (t.state ∷ []) ∷ (between ++ (decimal t.start_time_ticks ∷ rest)) in
    let good : All IsField words = (
      p.state,
      All-append IsField between (decimal t.start_time_ticks ∷ rest) fs
          (decimal-IsField t.start_time_ticks, gs),
    ) in
    let open_free : IsFree b'(' (decimal t.tid ++ (32 ∷ [])) =
      All-append (λ b. nat_beq b b'(' ≡ false) (decimal t.tid) (32 ∷ [])
        (decimal-IsFree b'(' t.tid refl) (refl, tt) in
    parse_proc_stat_line-parts (decimal t.tid ++ (32 ∷ [])) t.comm (spaced words) open_free
      (spaced-IsFree words good)
    ∙ rw
        (
          stat_tid-decimal t.tid p.tid,
          fields-spaced words (words_of words good),
          stat_fields-words t.state t.start_time_ticks between rest count p.start,
        )
        refl

-- A line of `schedstat`: three numbers, and what may follow them.
unfoldable pub schedstat_line : Schedstat → List Bytes → Bytes
schedstat_line s rest =
    spaced
      (decimal s.on_cpu_nanoseconds ∷ decimal s.runqueue_nanoseconds ∷ decimal s.timeslices ∷ rest)

-- ParseSchedstatLine reads back the line of any three 64-bit words, whatever words follow them.
pub parse_schedstat_line-schedstat_line :
    (s : Schedstat) (rest : List Bytes)
    → s.on_cpu_nanoseconds < word
    → s.runqueue_nanoseconds < word
    → s.timeslices < word
    → All IsWord rest
    → parse_schedstat_line (schedstat_line s rest) ≡ parsed s
unfolding schedstat_line parse_schedstat_line schedstat_values
parse_schedstat_line-schedstat_line s rest a b c h =
    let words =
      decimal s.on_cpu_nanoseconds ∷ decimal s.runqueue_nanoseconds ∷ decimal s.timeslices ∷ rest in
    let good : All IsWord words = (
      decimal-IsWord s.on_cpu_nanoseconds,
      (decimal-IsWord s.runqueue_nanoseconds, (decimal-IsWord s.timeslices, h)),
    ) in
    rw
      (
        fields-spaced words good,
        parse_uint-decimal s.on_cpu_nanoseconds a,
        parse_uint-decimal s.runqueue_nanoseconds b,
        parse_uint-decimal s.timeslices c,
      )
      refl
