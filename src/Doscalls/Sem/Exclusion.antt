-- ===== src/Doscalls/Sem/Exclusion.antt =====
-- Semaphores of 16-bit code exclude: of threads that clear only what they have taken, one at most has
-- the semaphore.
use ine_debugger.Doscalls.Sem.{
  Call, request, wait, Limit, once, never, until, Pc, idle, trying, checking, sleeping, owns,
  timed_out, System, turn, turn_word, missed, access_word, Event, begin, run, clear, set_sem, tick,
  enter_call, step, run_all,
}
use ine_debugger.Prelude.{ℕ, ◌≤◌, ◌≡◌, ◌≢◌, refl, arith, ◌⊎◌, List, [], ◌∷◌, inl, inr}
use ine_debugger.Prelude.{◌==◌, Bool-cases}

-- A thread that has the semaphore keeps it until it clears it, nobody else does, and nobody calls
-- DosSemSet.
abbrev pub Proper : Event → System → Type 0
Proper (begin i call ms) s = s.pc i ≢ owns
Proper (run i) s = Unit
Proper (clear i) s = s.pc i ≡ owns
Proper (set_sem i) s = ⊥
Proper tick s = Unit

abbrev pub AllProper : List Event → System → Type 0
AllProper [] s = Unit
AllProper (e ∷ es) s = Proper e s × AllProper es (step e s)

pub record Exclusive (s : System) : Type 0 where
  pub word : s.sem ≤ 1
  pub unique : (i j : ℕ) → s.pc i ≡ owns → s.pc j ≡ owns → i ≡ j
  pub taken : (i : ℕ) → s.pc i ≡ owns → s.sem ≡ 1
  pub holder : s.sem ≡ 1 → (i : ℕ) × (s.pc i ≡ owns)

-- What a turn says of the word, in terms of who has the semaphore before and after it.
record TurnFacts (sem clock : ℕ) (p : Pc) : Type 0 where
  bit : turn_word sem p ≤ 1
  kept : sem ≡ 1 → turn_word sem p ≡ 1
  stays : p ≡ owns → turn sem clock p ≡ owns
  won : turn sem clock p ≡ owns → (p ≡ owns) ⊎ ((sem ≡ 0) × (turn_word sem p ≡ 1))
  set_by : sem ≡ 0 → turn_word sem p ≡ 1 → turn sem clock p ≡ owns

missed-ne-owns : (call : Call) (limit : Limit) → missed call limit ≢ owns
unfolding missed
missed-ne-owns call once e = cc
missed-ne-owns call never e = cc
missed-ne-owns call (until end) e = cc

access_word_taken : (call : Call) (sem : ℕ) → sem ≤ 1 → (access_word call sem ≡ 1)
unfolding access_word
access_word_taken request sem h = refl
access_word_taken wait sem h = ground arith

turn_facts : (sem clock : ℕ) (p : Pc) → sem ≤ 1 → TurnFacts sem clock p
unfolding turn turn_word
turn_facts sem clock idle h = record {
  bit = h;
  kept = λ e. e;
  stays = λ e. cc;
  won = λ e. cc;
  set_by = λ e f. absurd (omega arith);
}
turn_facts sem clock (trying call limit) h =
    let after = access_word_taken call sem h in
    record {
      bit = omega (arith, after);
      kept = λ e. after;
      stays = λ e. cc;
      won = λ e. ground (arith, missed-ne-owns call limit, after);
      set_by = λ e f. ground arith;
    }
turn_facts sem clock (checking call end) h = record {
  bit = h;
  kept = λ e. e;
  stays = λ e. cc;
  won = λ e. ground arith;
  set_by = λ e f. absurd (omega arith);
}
turn_facts sem clock (sleeping call limit) h = record {
  bit = h;
  kept = λ e. e;
  stays = λ e. cc;
  won = λ e. cc;
  set_by = λ e f. absurd (omega arith);
}
turn_facts sem clock owns h = record {
  bit = h;
  kept = λ e. e;
  stays = λ e. e;
  won = λ e. inl refl;
  set_by = λ e f. refl;
}
turn_facts sem clock timed_out h = record {
  bit = h;
  kept = λ e. e;
  stays = λ e. cc;
  won = λ e. cc;
  set_by = λ e f. absurd (omega arith);
}

enter_call-ne-owns :
    (call : Call) (clock ms : ℕ) (p : Pc) → p ≢ owns → enter_call call clock ms p ≢ owns
unfolding enter_call
enter_call-ne-owns call clock ms idle n e = cc
enter_call-ne-owns call clock ms (trying call' limit) n e = cc
enter_call-ne-owns call clock ms (checking call' end) n e = cc
enter_call-ne-owns call clock ms (sleeping call' limit) n e = cc
enter_call-ne-owns call clock ms owns n e = cc
enter_call-ne-owns call clock ms timed_out n e = cc

pub step-Exclusive : (e : Event) (s : System) → Proper e s → Exclusive s → Exclusive (step e s)
unfolding step
step-Exclusive (begin i call ms) s proper x =
    let other = enter_call-ne-owns call s.clock ms (s.pc i) proper in
    record {
      word = x.word;
      unique = λ a b p q. ground (arith, x.unique a b);
      taken = λ a p. ground (arith, x.taken a);
      holder = λ e. let (a, p) = x.holder e in (a, ground arith);
    }
step-Exclusive (run i) s proper x =
    let f = turn_facts s.sem s.clock (s.pc i) x.word in
    record {
      word = f.bit;
      unique = λ a b p q. ground (arith, f.won, x.unique a b, x.taken a, x.taken b);
      taken = λ a p. ground (arith, f.won, f.kept, x.taken a, x.taken i);
      holder = λ e. elim (Bool-cases (s.sem == 1)) [
        | inl before ↦
            let (a, p) = x.holder (ground (arith, before)) in (a, ground (arith, f.stays))
        | inr free ↦ (i, ground (arith, free, f.set_by, x.word))
      ];
    }
step-Exclusive (clear i) s proper x = record {
  word = omega arith;
  unique = λ a b p q. ground (arith, x.unique a b);
  taken = λ a p. ground (arith, x.unique a i);
  holder = λ e. absurd (omega arith);
}
step-Exclusive (set_sem i) s proper x = absurd proper
step-Exclusive tick s proper x = record {
  word = x.word;
  unique = x.unique;
  taken = x.taken;
  holder = x.holder;
}

-- Where the word says whether a thread has the semaphore, and one at most has it, this stays so over
-- every schedule of proper calls and turns, however many threads there are: of requests with any
-- time limit, and of waits.
pub run_all-Exclusive :
    (es : List Event) (s : System) → AllProper es s → Exclusive s → Exclusive (run_all es s)
unfolding run_all
run_all-Exclusive [] s proper x = x
run_all-Exclusive (e ∷ es) s (proper, others) x =
    run_all-Exclusive es (step e s) others (step-Exclusive e s proper x)
