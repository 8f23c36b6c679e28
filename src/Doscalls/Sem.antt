-- ===== src/Doscalls/Sem.antt =====
-- native/doscalls.c: the RAM semaphores of 16-bit code (DosSemRequest, DosSemWait, DosSemClear,
-- DosSemSet) as threads that share one word. Each atomic access of the word, each reading of the
-- clock and each sleep is a turn of a thread; a schedule orders the turns of all of them.
pub mod Exclusion
pub mod Turns
pub mod Return
pub mod Progress
mod Runs
use ine_debugger.Prelude.{ℕ, ◌+◌, ◌≤◌, ◌≡◌, ◌^◌, Bool, List, [], ◌∷◌, ◌==◌, leb, if◌then◌else◌}

-- The two calls that wait.
pub data Call : Type 0 where
  request : Call
  wait : Call

-- How long: not at all, without end, or up to a time.
pub data Limit : Type 0 where
  once : Limit
  never : Limit
  until : ℕ → Limit

-- Where a thread is: outside, about to access the word, about to read the clock, asleep; or behind
-- the call, with NO_ERROR or with ERROR_TIMEOUT.
pub data Pc : Type 0 where
  idle : Pc
  trying : Call → Limit → Pc
  checking : Call → ℕ → Pc
  sleeping : Call → Limit → Pc
  owns : Pc
  timed_out : Pc

-- The word, the clock in milliseconds, and the threads.
pub record System : Type 0 where
  pub sem : ℕ
  pub clock : ℕ
  pub pc : ℕ → Pc

-- `ms` is a signed number of 32 bits; the end is a number of 64 bits, far from its limit.
unfoldable pub limit_of : ℕ → ℕ → Limit
limit_of clock ms =
    if ms == 0 then once else (if leb (2 ^ 31) ms then never else until (clock + ms))

-- `__sync_lock_test_and_set(sem, 1)` and `__sync_bool_compare_and_swap(sem, 0, 1)`: the word behind.
unfoldable pub access_word : Call → ℕ → ℕ
access_word request sem = 1
access_word wait sem = if sem == 0 then 1 else sem

-- Behind an access that found the word taken.
unfoldable pub missed : Call → Limit → Pc
missed call once = timed_out
missed call never = sleeping call never
missed call (until end) = checking call end

-- One turn of a thread inside of a call.
unfoldable pub turn : ℕ → ℕ → Pc → Pc
unfolding missed
turn sem clock idle = idle
turn sem clock (trying call limit) = if sem == 0 then owns else missed call limit
turn sem clock (checking call end) = if leb end clock then timed_out else sleeping call (until end)
turn sem clock (sleeping call limit) = trying call limit
turn sem clock owns = owns
turn sem clock timed_out = timed_out

-- What a turn does to the word.
unfoldable pub turn_word : ℕ → Pc → ℕ
unfolding access_word
turn_word sem (trying call limit) = access_word call sem
turn_word sem idle = sem
turn_word sem (checking call end) = sem
turn_word sem (sleeping call limit) = sem
turn_word sem owns = sem
turn_word sem timed_out = sem

abbrev pub at_thread : (ℕ → Pc) → ℕ → Pc → ℕ → Pc
at_thread f i p j = if i == j then p else f j

-- What happens next: a thread calls DosSemRequest or DosSemWait, has a turn, calls DosSemClear or
-- DosSemSet, or a millisecond passes.
pub data Event : Type 0 where
  begin : ℕ → Call → ℕ → Event
  run : ℕ → Event
  clear : ℕ → Event
  set_sem : ℕ → Event
  tick : Event

-- A thread that is inside of a call begins no other.
unfoldable pub enter_call : Call → ℕ → ℕ → Pc → Pc
unfolding limit_of
enter_call call clock ms idle = trying call (limit_of clock ms)
enter_call call clock ms timed_out = trying call (limit_of clock ms)
enter_call call clock ms owns = trying call (limit_of clock ms)
enter_call call clock ms (trying call' limit) = trying call' limit
enter_call call clock ms (checking call' end) = checking call' end
enter_call call clock ms (sleeping call' limit) = sleeping call' limit

unfoldable pub step : Event → System → System
unfolding turn turn_word enter_call
step (begin i call ms) s = record s { pc = at_thread s.pc i (enter_call call s.clock ms (s.pc i)) }
step (run i) s = record s {
  sem = turn_word s.sem (s.pc i);
  pc = at_thread s.pc i (turn s.sem s.clock (s.pc i));
}
step (clear i) s = record s { sem = 0; pc = at_thread s.pc i idle }
step (set_sem i) s = record s { sem = if s.sem == 1 then 0 else s.sem }
step tick s = record s { clock = s.clock + 1 }

unfoldable pub run_all : List Event → System → System
run_all [] s = s
run_all (e ∷ es) s = run_all es (step e s)
