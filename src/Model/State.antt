-- ===== src/Model/State.antt =====
-- internal/model/state.go: the thread states that procfs reports.
use tsastat.Prelude.{
  ℕ, ◌≡◌, ◌↔◌, Bool, true, List, [], ◌∷◌, arith, if◌then◌else◌, nat_beq, Comparable,
}

pub data ThreadState : Type 0 where
  running sleeping uninterruptible stopped tracing_stop zombie dead idle unknown : ThreadState

pub state_from_proc : ℕ → ThreadState
state_from_proc stat =
    if nat_beq stat b'R'
    then running
    else if nat_beq stat b'S'
    then sleeping
    else if nat_beq stat b'D'
    then uninterruptible
    else if nat_beq stat b'T'
    then stopped
    else if nat_beq stat b't'
    then tracing_stop
    else if nat_beq stat b'Z'
    then zombie
    else if nat_beq stat b'X'
    then dead
    else if nat_beq stat b'x'
    then dead
    else if nat_beq stat b'I'
    then idle
    else unknown

unfoldable pub known_states : List ThreadState
known_states =
    running ∷ sleeping ∷ uninterruptible ∷ stopped ∷ tracing_stop ∷ zombie ∷ dead ∷ idle ∷ unknown
    ∷ []

abbrev pub state_number : ThreadState → ℕ
state_number running = 0
state_number sleeping = 1
state_number uninterruptible = 2
state_number stopped = 3
state_number tracing_stop = 4
state_number zombie = 5
state_number dead = 6
state_number idle = 7
state_number unknown = 8

abbrev pub state_beq : ThreadState → ThreadState → Bool
state_beq s t = nat_beq (state_number s) (state_number t)

pub state_beq_iff : (s t : ThreadState) → (state_beq s t ≡ true) ↔ (s ≡ t)
state_beq_iff s t = ground arith

instance abbrev pub state_eq : Comparable ThreadState
state_eq = record { equals = state_beq; equals_iff = state_beq_iff }
