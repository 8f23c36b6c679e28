-- ===== src/Doscalls/Sem/Return.antt =====
-- Semaphores of 16-bit code: calls with a time limit return.
use ine_debugger.Doscalls.Sem.{
  once, never, until, Pc, idle, trying, checking, sleeping, owns, timed_out, System, turn, Event,
  step, run_all,
}
use ine_debugger.Doscalls.Sem.Exclusion.{}
use ine_debugger.Doscalls.Sem.Turns.{AllQuiet, turns, Turned, step_kept}
use ine_debugger.Prelude.{ℕ, suc, ◌+◌, ◌≤◌, ◌≡◌, refl, arith, ◌⊎◌, Bool, List, [], ◌∷◌, inl, inr}
use ine_debugger.Prelude.{◌==◌, if◌then◌else◌, leb, true, false}

-- The turns that a call takes at most once its time is over.
abbrev pub Due : ℕ → Pc → ℕ → Type 0
Due clock (trying call (until end)) n = (end ≤ clock) × (2 ≤ n)
Due clock (checking call end) n = (end ≤ clock) × (1 ≤ n)
Due clock (sleeping call (until end)) n = (end ≤ clock) × (3 ≤ n)
Due clock (trying call once) n = 1 ≤ n
Due clock (trying call never) n = ⊥
Due clock (sleeping call once) n = ⊥
Due clock (sleeping call never) n = ⊥
Due clock idle n = ⊥
Due clock owns n = Unit
Due clock timed_out n = Unit

-- Behind the call.
abbrev pub IsBack : Pc → Type 0
IsBack p = (p ≡ owns) ⊎ (p ≡ timed_out)

-- Of a turn that may have won.
won_or : (clock n : ℕ) (b : Bool) (p : Pc) → Due clock p n → Due clock (if b then owns else p) n
won_or clock n true p d = tt
won_or clock n false p d = d

turn-Due : (sem clock : ℕ) (p : Pc) (n : ℕ) → Due clock p (suc n) → Due clock (turn sem clock p) n
unfolding turn
turn-Due sem clock idle n d = absurd d
turn-Due sem clock (trying call once) n d = won_or clock n (sem == 0) timed_out tt
turn-Due sem clock (trying call never) n d = absurd d
turn-Due sem clock (trying call (until end)) n (over, enough) =
    won_or clock n (sem == 0) (checking call end) (over, omega arith)
turn-Due sem clock (checking call end) n (over, enough) =
    let late : leb end clock ≡ true = ground arith in rw late tt
turn-Due sem clock (sleeping call once) n d = absurd d
turn-Due sem clock (sleeping call never) n d = absurd d
turn-Due sem clock (sleeping call (until end)) n (over, enough) = (over, omega arith)
turn-Due sem clock owns n d = tt
turn-Due sem clock timed_out n d = tt

tick-Due : (clock : ℕ) (p : Pc) (n : ℕ) → Due clock p n → Due (clock + 1) p n
tick-Due clock idle n d = d
tick-Due clock (trying call once) n d = d
tick-Due clock (trying call never) n d = d
tick-Due clock (trying call (until end)) n (over, enough) = (omega arith, enough)
tick-Due clock (checking call end) n (over, enough) = (omega arith, enough)
tick-Due clock (sleeping call once) n d = d
tick-Due clock (sleeping call never) n d = d
tick-Due clock (sleeping call (until end)) n (over, enough) = (omega arith, enough)
tick-Due clock owns n d = tt
tick-Due clock timed_out n d = tt

Due-IsBack : (clock : ℕ) (p : Pc) → Due clock p 0 → IsBack p
Due-IsBack clock idle d = absurd d
Due-IsBack clock (trying call once) d = absurd (omega arith)
Due-IsBack clock (trying call never) d = absurd d
Due-IsBack clock (trying call (until end)) (over, enough) = absurd (omega arith)
Due-IsBack clock (checking call end) (over, enough) = absurd (omega arith)
Due-IsBack clock (sleeping call once) d = absurd d
Due-IsBack clock (sleeping call never) d = absurd d
Due-IsBack clock (sleeping call (until end)) (over, enough) = absurd (omega arith)
Due-IsBack clock owns d = inl refl
Due-IsBack clock timed_out d = inr refl

-- However the turns of other threads fall, a call whose time is over when the schedule begins has
-- returned by its end if the thread has three turns in it, two if it is awake, one if it is about to
-- read the clock; and a call without waiting has, if it has one turn. Nothing is asked of the other
-- threads, of DosSemSet or of the word.
pub run_all-IsBack :
    (es : List Event) (s : System) (i : ℕ)
    → AllQuiet i es
    → Due s.clock (s.pc i) (turns i es)
    → IsBack ((run_all es s).pc i)
unfolding run_all Turned
run_all-IsBack [] s i quiet d = Due-IsBack s.clock (s.pc i) d
run_all-IsBack (e ∷ es) s i (quiet, others) d = run_all-IsBack es (step e s) i others (
    step_kept Due e s i (turns i es) (λ p. tick-Due s.clock p (turns i es))
      (turn-Due s.sem s.clock (s.pc i) (turns i es)) quiet d)
