-- ===== src/Doscalls/Sem/Runs.antt =====
-- native/doscalls.c: schedules of two threads and one semaphore.
use ine_debugger.Doscalls.Sem.{
  request, wait, idle, sleeping, owns, timed_out, never, until, System, Event, begin, run, clear,
  set_sem, tick, step, run_all, limit_of, turn, turn_word, missed, access_word, enter_call,
}
use ine_debugger.Doscalls.Sem.Exclusion.{Exclusive, AllProper, run_all-Exclusive}
use ine_debugger.Doscalls.Sem.Return.{IsBack, run_all-IsBack}
use ine_debugger.Doscalls.Sem.Progress.{Resolved, Sometime, run_all_progress}
use ine_debugger.Prelude.{◌≡◌, refl, arith, List, [], ◌∷◌, ◌==◌, if◌then◌else◌}

-- Nobody has the semaphore.
abbrev start : System
start = record { sem = 0; clock = 0; pc = λ i. idle }

start-Exclusive : Exclusive start
start-Exclusive = record {
  word = omega arith;
  unique = λ i j p q. cc;
  taken = λ i p. cc;
  holder = λ e. absurd (omega arith);
}

-- Thread 0 takes it; thread 1 asks without end, misses, and gets it behind DosSemClear.
abbrev handover : List Event
handover =
    begin 0 request 0 ∷ run 0 ∷ begin 1 request 0x80000000 ∷ run 1 ∷ clear 0 ∷ run 1 ∷ run 1 ∷ []

handover-AllProper : AllProper handover start
unfolding run_all step turn turn_word missed access_word enter_call limit_of
handover-AllProper = ((λ e. cc), (tt, ((λ e. cc), (tt, (refl, (tt, (tt, tt)))))))

run_all-Exclusive_example : Exclusive (run_all handover start)
run_all-Exclusive_example = run_all-Exclusive handover start handover-AllProper start-Exclusive

handover_run : (run_all handover start).pc 1 ≡ owns
unfolding run_all step turn turn_word missed access_word enter_call limit_of
handover_run = refl

-- Thread 0 has it, and thread 1 has asked for it until time 5, which is over.
abbrev late : System
late = record {
  sem = 1;
  clock = 5;
  pc = λ i. if i == 0 then owns else (if i == 1 then sleeping request (until 5) else idle);
}

abbrev turns_of_both : List Event
turns_of_both = run 1 ∷ run 0 ∷ run 1 ∷ tick ∷ run 1 ∷ []

run_all-IsBack_example : IsBack ((run_all turns_of_both late).pc 1)
run_all-IsBack_example =
    run_all-IsBack turns_of_both late 1 (tt, (tt, (tt, (tt, (tt, tt))))) (omega arith, omega arith)

timeout_run : (run_all turns_of_both late).pc 1 ≡ timed_out
unfolding run_all step turn turn_word missed access_word enter_call limit_of
timeout_run = refl

-- Thread 1 waits, and nobody has the semaphore.
abbrev asleep : System
asleep = record { sem = 0; clock = 5; pc = λ i. if i == 1 then sleeping wait never else idle }

asleep-Exclusive : Exclusive asleep
asleep-Exclusive = record {
  word = omega arith;
  unique = λ i j p q. ground arith;
  taken = λ i p. ground arith;
  holder = λ e. absurd (omega arith);
}

abbrev two_turns : List Event
two_turns = run 1 ∷ tick ∷ run 1 ∷ []

run_all_progress_example : Sometime (Resolved 1) two_turns asleep
run_all_progress_example =
    run_all_progress two_turns asleep 1 asleep-Exclusive (tt, (tt, (tt, tt))) (tt, (tt, (tt, tt)))
      (omega arith)

-- DosSemSet of thread 1 lets it in beside thread 0: both get NO_ERROR.
abbrev intrusion : List Event
intrusion = begin 0 request 0 ∷ run 0 ∷ set_sem 1 ∷ begin 1 request 0 ∷ run 1 ∷ []

intrusion_run : ((run_all intrusion start).pc 0 ≡ owns) × ((run_all intrusion start).pc 1 ≡ owns)
unfolding run_all step turn turn_word missed access_word enter_call limit_of
intrusion_run = (refl, refl)
