-- ===== src/Doscalls/Sem/Progress.antt =====
-- Semaphores of 16-bit code: a thread that goes on trying finds the word taken only because somebody
-- has the semaphore.
use ine_debugger.Doscalls.Sem.{
  Pc, idle, trying, checking, sleeping, owns, timed_out, System, turn, Event, step,
}
use ine_debugger.Doscalls.Sem.Exclusion.{AllProper, Exclusive, step-Exclusive}
use ine_debugger.Doscalls.Sem.Turns.{AllQuiet, turns, Turned, step_kept}
use ine_debugger.Prelude.{ℕ, suc, ◌+◌, ◌≤◌, ◌≡◌, refl, arith, ◌⊎◌, List, [], ◌∷◌, inl, inr}
use ine_debugger.Prelude.{◌==◌, leb, Bool-cases}

-- The turns that a thread inside of a call needs to get to its next access of the word, or out.
abbrev pub Ready : ℕ → Pc → ℕ → Type 0
Ready clock (trying call limit) n = 1 ≤ n
Ready clock (sleeping call limit) n = 2 ≤ n
Ready clock (checking call end) n = 3 ≤ n
Ready clock idle n = ⊥
Ready clock owns n = Unit
Ready clock timed_out n = Unit

turn-Ready : (clock : ℕ) (p : Pc) (n : ℕ) → Ready clock p (suc n) → Ready clock (turn 0 clock p) n
unfolding turn
turn-Ready clock idle n d = absurd d
turn-Ready clock (trying call limit) n d = tt
turn-Ready clock (checking call end) n d = elim (Bool-cases (leb end clock)) [
  | inl late ↦ rw late tt
  | inr early ↦ rw early (omega arith)
]
turn-Ready clock (sleeping call limit) n d = omega arith
turn-Ready clock owns n d = tt
turn-Ready clock timed_out n d = tt

tick-Ready : (clock : ℕ) (p : Pc) (n : ℕ) → Ready clock p n → Ready (clock + 1) p n
tick-Ready clock idle n d = d
tick-Ready clock (trying call limit) n d = d
tick-Ready clock (checking call end) n d = d
tick-Ready clock (sleeping call limit) n d = d
tick-Ready clock owns n d = tt
tick-Ready clock timed_out n d = tt

-- Somebody has the semaphore, or the thread has run out of its time.
abbrev pub Resolved : ℕ → System → Type 0
Resolved i s = ((j : ℕ) × (s.pc j ≡ owns)) ⊎ (s.pc i ≡ timed_out)

Ready-Resolved : (s : System) (i : ℕ) (p : Pc) → s.pc i ≡ p → Ready s.clock p 0 → Resolved i s
Ready-Resolved s i idle e d = absurd d
Ready-Resolved s i (trying call limit) e d = absurd (omega arith)
Ready-Resolved s i (checking call end) e d = absurd (omega arith)
Ready-Resolved s i (sleeping call limit) e d = absurd (omega arith)
Ready-Resolved s i owns e d = inl (i, e)
Ready-Resolved s i timed_out e d = inr e

-- At the start of a schedule, or behind one of its events.
abbrev pub Sometime : (System → Type 0) → List Event → System → Type 0
Sometime P [] s = P s
Sometime P (e ∷ es) s = P s ⊎ Sometime P es (step e s)

-- No call waits while nobody has the semaphore: in a schedule of proper calls and turns in which a
-- thread that waits, with any time limit or none, gets three turns, two if it is awake from a sleep,
-- one if it is about to access the word, there is a time at which some thread has the semaphore or
-- the one that waits has run out of its time.
pub run_all_progress :
    (es : List Event) (s : System) (i : ℕ)
    → Exclusive s
    → AllProper es s
    → AllQuiet i es
    → Ready s.clock (s.pc i) (turns i es)
    → Sometime (Resolved i) es s
unfolding Turned
run_all_progress [] s i x proper quiet d = Ready-Resolved s i (s.pc i) refl d
run_all_progress (e ∷ es) s i x (proper, others) (quiet, later) d = elim (Bool-cases (s.sem == 1)) [
  | inl taken ↦ inl (inl (x.holder (ground (arith, taken))))
  | inr free ↦
      let zeroed : s.sem ≡ 0 = ground (arith, free, x.word) in
      inr (
        run_all_progress es (step e s) i (step-Exclusive e s proper x) others later (
          step_kept Ready e s i (turns i es) (λ p. tick-Ready s.clock p (turns i es))
            (rw zeroed (turn-Ready s.clock (s.pc i) (turns i es))) quiet d))
]
