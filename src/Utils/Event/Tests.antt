-- ===== src/Utils/Event/Tests.antt =====
-- Passes of the emitter of Utils/Event.
use natbuster.Prelude.{ℕ, ◌+◌, ◌≡◌, refl, true, Option, none, List, [], ◌∷◌, arith}
use natbuster.Utils.Event.{
  Timer, EventEmitter, add_timer, lock, erase, cancel_timer, activate, delete_all, update, Call,
  adds, perform, run_expired, waits, pass,
}
use natbuster.Utils.Event.Pass.{due, undue, without, current, WakesFor, pass_lem}
use natbuster.Utils.Event.Runs.{times, starts, adds_timer, passes}
use natbuster.Utils.Event.Once.{Once, Reach-Once, cancel_timer-pass}

abbrev timer : ℕ → ℕ → Timer
timer handle expiry = record { handle = handle; expiry = expiry; active = true }

abbrev two_timers : EventEmitter
two_timers = record {
  timer_additions = [];
  timer_deletions = [];
  timers = timer 0 5 ∷ timer 1 9 ∷ [];
  running = true;
  next = 2;
}

-- The first callback asks for another timer.
abbrev asks : ℕ → List Call
asks handle = adds 20 ∷ []

abbrev at_seven : ℕ → ℕ
at_seven k = 7 + k

pass_lem_example :
    (s' : EventEmitter) × (d : Option ℕ) × (k : ℕ) × (pass at_seven asks two_timers
      ≡ waits s' (due at_seven 0 (current two_timers)) d)
    × (s'.timers ≡ undue at_seven 0 (current two_timers))
    × WakesFor d (at_seven k) s'.timers
pass_lem_example = pass_lem at_seven asks two_timers (refl, (refl, tt)) refl

runs_first : due at_seven 0 (current two_timers) ≡ timer 0 5 ∷ []
unfolding due current without activate
runs_first = refl

abbrev empty_emitter : EventEmitter
empty_emitter = record {
  timer_additions = [];
  timer_deletions = [];
  timers = [];
  running = true;
  next = 0;
}

abbrev after_one : EventEmitter
after_one = record empty_emitter { next = 1 }

one_pass :
    pass at_seven (λ h. []) (add_timer empty_emitter 5) ≡ waits after_one (timer 0 5 ∷ []) none
unfolding pass update activate delete_all run_expired perform add_timer
one_pass = refl

Reach-Once_example : Once after_one (timer 0 5 ∷ [])
Reach-Once_example =
    Reach-Once (passes at_seven (λ h. []) none (timer 0 5 ∷ []) (adds_timer 5 starts) one_pass)

one_pass_cancelled :
    pass at_seven (λ h. []) (cancel_timer (add_timer empty_emitter 5) 0) ≡ waits after_one [] none
unfolding pass update activate delete_all run_expired perform add_timer cancel_timer lock erase
one_pass_cancelled = refl

cancel_timer-pass_example :
    (times 0 [] ≡ 0) × (times 0 after_one.timers ≡ 0) × (times 0 after_one.timer_additions ≡ 0)
unfolding add_timer
cancel_timer-pass_example =
    cancel_timer-pass at_seven (λ h. []) (add_timer empty_emitter 5) after_one [] [] none 0
      (adds_timer 5 starts) (omega arith) one_pass_cancelled
