-- ===== src/Doscalls/Sem/Turns.antt =====
-- Semaphores of 16-bit code: the turns of one thread in a schedule, and what the events of the others
-- leave as it is.
use ine_debugger.Doscalls.Sem.{Pc, System, turn, Event, begin, run, clear, set_sem, tick, step}
use ine_debugger.Doscalls.Sem.Exclusion.{}
use ine_debugger.Prelude.{ℕ, suc, ◌+◌, ◌≡◌, ◌≢◌, arith, List, [], ◌∷◌, inl, inr}
use ine_debugger.Prelude.{◌==◌, if◌then◌else◌, Bool-cases, false}

-- An event in which thread `i` begins nothing and clears nothing.
abbrev pub Quiet : ℕ → Event → Type 0
Quiet i (begin j call ms) = j ≢ i
Quiet i (run j) = Unit
Quiet i (clear j) = j ≢ i
Quiet i (set_sem j) = Unit
Quiet i tick = Unit

abbrev pub AllQuiet : ℕ → List Event → Type 0
AllQuiet i [] = Unit
AllQuiet i (e ∷ es) = Quiet i e × AllQuiet i es

-- The turns of a thread in a schedule.
abbrev pub own : ℕ → Event → ℕ
own i (run j) = if j == i then 1 else 0
own i (begin j call ms) = 0
own i (clear j) = 0
own i (set_sem j) = 0
own i tick = 0

abbrev pub turns : ℕ → List Event → ℕ
turns i [] = 0
turns i (e ∷ es) = own i e + turns i es

zero_turns : (P : ℕ → Type 0) (n : ℕ) → P (0 + n) → P n
zero_turns P n d = let same : 0 + n ≡ n = omega arith in rw same at d

one_turn : (P : ℕ → Type 0) (n : ℕ) → P (1 + n) → P (suc n)
one_turn P n d = let same : 1 + n ≡ suc n = omega arith in rw same at d

-- A fact of where a thread is and of the turns that it has left, and how a turn of it changes that.
unfoldable pub Turned : (ℕ → Pc → ℕ → Type 0) → System → ℕ → ℕ → Type 0
Turned P s i n = P s.clock (s.pc i) (suc n) → P s.clock (turn s.sem s.clock (s.pc i)) n

run_step :
    (P : ℕ → Pc → ℕ → Type 0) (s : System) (i j n : ℕ)
    → Turned P s i n
    → P s.clock (s.pc i) (own i (run j) + n)
    → P s.clock ((step (run j) s).pc i) n
unfolding step Turned
run_step P s i j n turned d = elim (Bool-cases (j == i)) [
  | inl same ↦
      let e : j ≡ i = ground (arith, same) in
      rw (same, e) (turned (one_turn (P s.clock (s.pc i)) n (rw same at d)))
  | inr other ↦ rw other (zero_turns (P s.clock (s.pc i)) n (rw other at d))
]

pub step_kept :
    (P : ℕ → Pc → ℕ → Type 0) (e : Event) (s : System) (i n : ℕ)
    → ((p : Pc) → P s.clock p n → P (s.clock + 1) p n)
    → Turned P s i n
    → Quiet i e
    → P s.clock (s.pc i) (own i e + n)
    → P (step e s).clock ((step e s).pc i) n
unfolding step
step_kept P (begin j call ms) s i n later turned quiet d =
    let no : (j == i) ≡ false = ground arith in rw no (zero_turns (P s.clock (s.pc i)) n d)
step_kept P (run j) s i n later turned quiet d = run_step P s i j n turned d
step_kept P (clear j) s i n later turned quiet d =
    let no : (j == i) ≡ false = ground arith in rw no (zero_turns (P s.clock (s.pc i)) n d)
step_kept P (set_sem j) s i n later turned quiet d = zero_turns (P s.clock (s.pc i)) n d
step_kept P tick s i n later turned quiet d = later (s.pc i) (zero_turns (P s.clock (s.pc i)) n d)
