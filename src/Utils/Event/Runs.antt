-- ===== src/Utils/Event/Runs.antt =====
-- Runs of the emitter of common/utils/event.h: timers are added and cancelled, and passes are made.
use natbuster.Prelude.{
  ℕ, suc, ◌+◌, ◌≤◌, ◌≡◌, refl, ap, sym, subst, ◌∙◌, inl, inr, true, false, Bool-cases, Option, none,
  List, [], ◌∷◌, ◌++◌, arith, leb, ◌==◌, if◌then◌else◌,
}
use natbuster.Utils.Event.{
  Timer, EventEmitter, add_timer, erase, cancel_timer, stop, activate, Call, adds, cancels, perform,
  run_expired, sooner, ended, waits, pass,
}
use natbuster.Utils.Event.Pass.{
  due, undue, without, current, AllActive, AllActive-erase, run_expired_lem, update_lem,
  pass_running,
}

-- How often the timer is in a list.
unfoldable pub times : ℕ → List Timer → ℕ
times h [] = 0
times h (t ∷ ts) = (if t.handle == h then 1 else 0) + times h ts

pub times-append : (h : ℕ) (xs ys : List Timer) → times h (xs ++ ys) ≡ times h xs + times h ys
unfolding times
times-append h [] ys = omega arith
times-append h (x ∷ xs) ys = omega (arith, times-append h xs ys)

pub times-activate : (h : ℕ) (xs : List Timer) → times h (activate xs) ≡ times h xs
unfolding times activate
times-activate h [] = refl
times-activate h (x ∷ xs) = omega (arith, times-activate h xs)

pub times-erase : (h j : ℕ) (xs : List Timer) → times h (erase j xs) ≤ times h xs
unfolding times erase
times-erase h j [] = omega arith
times-erase h j (x ∷ xs) = ground (arith, times-erase h j xs)

pub times-erase_self : (h : ℕ) (xs : List Timer) → times h (erase h xs) ≡ 0
unfolding times erase
times-erase_self h [] = refl
times-erase_self h (x ∷ xs) = ground (arith, times-erase_self h xs)

pub times-without : (h : ℕ) (del : List ℕ) (xs : List Timer) → times h (without del xs) ≤ times h xs
unfolding without
times-without h [] xs = omega arith
times-without h (d ∷ del) xs = omega (arith, times-without h del (erase d xs), times-erase h d xs)

pub times-due :
    (h : ℕ) (now : ℕ → ℕ) (k : ℕ) (xs : List Timer)
    → times h (due now k xs) + times h (undue now k xs) ≡ times h xs
unfolding times due undue
times-due h now k [] = refl
times-due h now k (x ∷ xs) = elim (Bool-cases (leb x.expiry (now k))) [
  | inl b ↦ rw b (omega (arith, times-due h now (suc k) xs))
  | inr b ↦ rw b (omega (arith, times-due h now (suc k) xs))
]

-- The emitter and the timers that have run in it, the last ones first.
pub data Reach : EventEmitter → List Timer → Type 0 where
  starts :
      Reach
        (record {
          timer_additions = [];
          timer_deletions = [];
          timers = [];
          running = true;
          next = 0;
        })
        []
  adds_timer :
      (expiry : ℕ) {s : EventEmitter} {ran : List Timer}
      → Reach s ran
      → Reach (add_timer s expiry) ran
  cancels_timer :
      (h : ℕ) {s : EventEmitter} {ran : List Timer} → Reach s ran → Reach (cancel_timer s h) ran
  stops : {s : EventEmitter} {ran : List Timer} → Reach s ran → Reach (stop s) ran
  passes :
      (now : ℕ → ℕ) (calls : ℕ → List Call) (d : Option ℕ) (fired : List Timer)
      {s s' : EventEmitter} {ran : List Timer}
      → Reach s ran
      → pass now calls s ≡ waits s' fired d
      → Reach s' (fired ++ ran)

abbrev pub allowed : ℕ → EventEmitter → ℕ
allowed h s = if leb s.next h then 0 else 1

-- Room for the timer `h`, with `c` of it elsewhere.
abbrev pub Room : ℕ → ℕ → EventEmitter → Type 0
Room h c s = times h s.timer_additions + c ≤ allowed h s

pub add_timer-Room :
    (h c : ℕ) (s : EventEmitter) (expiry : ℕ) → Room h c s → Room h c (add_timer s expiry)
unfolding add_timer times
add_timer-Room h c s expiry r = ground (
  arith,
  r,
  times-append h s.timer_additions
      (record { handle = s.next; expiry = expiry; active = false } ∷ []),
)

pub cancel_timer-Room : (h c j : ℕ) (s : EventEmitter) → Room h c s → Room h c (cancel_timer s j)
unfolding cancel_timer
cancel_timer-Room h c j s r = ground (arith, r, times-erase h j s.timer_additions)

pub perform-Room :
    (h c : ℕ) (calls : List Call) (s : EventEmitter) → Room h c s → Room h c (perform calls s)
unfolding perform
perform-Room h c [] s r = r
perform-Room h c (adds e ∷ rest) s r =
    perform-Room h c rest (add_timer s e) (add_timer-Room h c s e r)
perform-Room h c (cancels j ∷ rest) s r =
    perform-Room h c rest (cancel_timer s j) (cancel_timer-Room h c j s r)

run_expired-Room :
    (h c : ℕ) (now : ℕ → ℕ) (calls : ℕ → List Call) (k : ℕ) (kept rest : List Timer)
    (next : Option ℕ) (s : EventEmitter)
    → Room h c s
    → Room h c (run_expired now calls k kept rest next s).state
unfolding run_expired
run_expired-Room h c now calls k kept [] next s r = r
run_expired-Room h c now calls k kept (it ∷ rest) next s r =
    elim (Bool-cases (leb it.expiry (now k))) [
      | inl b ↦ rw b (
          run_expired-Room h c now calls (suc k) kept rest next
            (record (perform (calls it.handle) s) { timers = kept ++ rest })
            (perform-Room h c (calls it.handle) s r))
      | inr b ↦ rw b (
          run_expired-Room h c now calls (suc k) (kept ++ (it ∷ [])) rest (sooner next it.expiry) s
            r)
    ]

pub AllActive-without : (del : List ℕ) (xs : List Timer) → AllActive xs → AllActive (without del xs)
unfolding without
AllActive-without [] xs p = p
AllActive-without (d ∷ del) xs p = AllActive-without del (erase d xs) (AllActive-erase d xs p)

pub AllActive-undue :
    (now : ℕ → ℕ) (k : ℕ) (xs : List Timer) → AllActive xs → AllActive (undue now k xs)
unfolding undue
AllActive-undue now k [] p = tt
AllActive-undue now k (x ∷ xs) p = elim (Bool-cases (leb x.expiry (now k))) [
  | inl b ↦ rw b (AllActive-undue now (suc k) xs p.1)
  | inr b ↦ rw b (p.0, AllActive-undue now (suc k) xs p.1)
]

pub times-current :
    (h : ℕ) (s : EventEmitter) → times h (current s) ≤ times h s.timers + times h s.timer_additions
unfolding current
times-current h s = omega (
  arith,
  times-without h s.timer_deletions (s.timers ++ activate s.timer_additions),
  times-append h s.timers (activate s.timer_additions),
  times-activate h s.timer_additions,
)

-- A pass that waits: what it has run, what it keeps, and the room that is left.
pub record Passed (now : ℕ → ℕ) (s s' : EventEmitter) (fired : List Timer) : Type 0 where
  pub fires : fired ≡ due now 0 (current s)
  pub keeps : s'.timers ≡ undue now 0 (current s)
  pub rooms : (h c : ℕ) → c ≤ allowed h s → Room h c s'

pass_stopped :
    (now : ℕ → ℕ) (calls : ℕ → List Call) (s : EventEmitter)
    → s.running ≡ false
    → pass now calls s ≡ ended
unfolding pass
pass_stopped now calls s e = rw e refl

pub pass-Passed :
    (now : ℕ → ℕ) (calls : ℕ → List Call) (s s' : EventEmitter) (d : Option ℕ) (fired : List Timer)
    → AllActive s.timers
    → pass now calls s ≡ waits s' fired d
    → Passed now s s' fired
unfolding times
pass-Passed now calls s s' d fired p h = elim (Bool-cases s.running) [
  | inl e ↦
      let s1 = record s { timer_additions = []; timer_deletions = []; timers = current s } in
      let r = run_expired now calls 0 [] (current s) none s1 in
      let (f, t, _) = run_expired_lem now calls 0 [] (current s) none s1 refl in
      let q = pass_running now calls s s1 e (update_lem s p) in
      let at_s : r.state ≡ s' = cc in
      let at_f : r.fired ≡ fired = cc in
      record {
        fires = sym at_f ∙ f;
        keeps = sym (ap (λ z. z.timers) at_s) ∙ t;
        rooms = λ j c l.
            subst (λ z. Room j c z) at_s
              (run_expired-Room j c now calls 0 [] (current s) none s1 (omega arith));
      }
  | inr e ↦ absurd (ground (arith, pass_stopped now calls s e, h))
]
