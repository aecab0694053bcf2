-- ===== src/Utils/Event/Pass.antt =====
-- What one pass of the loop of common/utils/event.h does.
use natbuster.Prelude.{
  ℕ, suc, ◌-◌, ◌≤◌, ◌≡◌, refl, ap, sym, subst, ◌∙◌, inl, inr, true, Bool-cases, Option-cases,
  Option, none, some, List, [], ◌∷◌, ◌++◌, append_assoc, arith, ltb, leb, ◌==◌, if◌then◌else◌,
}
use natbuster.Utils.Event.{
  Timer, EventEmitter, add_timer, lock, erase, cancel_timer, activate, delete_all, update, Call,
  adds, cancels, perform, sooner, run_expired, delay, waits, waiting, pass,
}

-- The timers that a pass finds due, and the others: each is looked at once, with a reading of its own.
unfoldable pub due : (ℕ → ℕ) → ℕ → List Timer → List Timer
due now k [] = []
due now k (t ∷ ts) =
    let rest = due now (suc k) ts in if leb t.expiry (now k) then t ∷ rest else rest

unfoldable pub undue : (ℕ → ℕ) → ℕ → List Timer → List Timer
undue now k [] = []
undue now k (t ∷ ts) =
    let rest = undue now (suc k) ts in if leb t.expiry (now k) then rest else t ∷ rest

unfoldable pub soonest : Option ℕ → List Timer → Option ℕ
soonest next [] = next
soonest next (t ∷ ts) = soonest (sooner next t.expiry) ts

-- The timers that are to be deleted are gone.
unfoldable pub without : List ℕ → List Timer → List Timer
without [] timers = timers
without (hwnd ∷ rest) timers = without rest (erase hwnd timers)

abbrev pub AllActive : List Timer → Type 0
AllActive [] = Unit {0}
AllActive (t ∷ ts) = (t.active ≡ true) × AllActive ts

pub AllActive-append : (xs ys : List Timer) → AllActive xs → AllActive ys → AllActive (xs ++ ys)
AllActive-append [] ys p q = q
AllActive-append (x ∷ xs) ys p q = (p.0, AllActive-append xs ys p.1 q)

pub AllActive-activate : (xs : List Timer) → AllActive (activate xs)
unfolding activate
AllActive-activate [] = tt
AllActive-activate (x ∷ xs) = (refl, AllActive-activate xs)

pub AllActive-erase : (h : ℕ) (xs : List Timer) → AllActive xs → AllActive (erase h xs)
unfolding erase
AllActive-erase h [] p = tt
AllActive-erase h (x ∷ xs) p = elim (Bool-cases (x.handle == h)) [
  | inl e ↦ rw e (AllActive-erase h xs p.1)
  | inr e ↦ rw e (p.0, AllActive-erase h xs p.1)
]

erase-none : (h : ℕ) (xs : List Timer) → lock h xs ≡ none → erase h xs ≡ xs
unfolding lock erase
erase-none h [] e = refl
erase-none h (x ∷ xs) e = ground (arith, e, erase-none h xs)

lock-active :
    (h : ℕ) (xs : List Timer) (t : Timer) → AllActive xs → lock h xs ≡ some t → t.active ≡ true
unfolding lock
lock-active h [] t p e = cc
lock-active h (x ∷ xs) t p e = ground (arith, e, p, lock-active h xs t)

delete_all_lem :
    (del : List ℕ) (timers : List Timer)
    → AllActive timers
    → delete_all del timers ≡ some (without del timers)
unfolding delete_all without
delete_all_lem [] timers p = refl
delete_all_lem (h ∷ rest) timers p = elim (Option-cases (lock h timers)) [
  | inl e ↦ ground (arith, e, erase-none h timers e, delete_all_lem rest timers p)
  | inr (it, e) ↦ ground (
    arith,
    e,
    lock-active h timers it p e,
    delete_all_lem rest (erase h timers) (AllActive-erase h timers p),
  )
]

cancel_timer-timers : (s : EventEmitter) (h : ℕ) → (cancel_timer s h).timers ≡ s.timers
unfolding cancel_timer
cancel_timer-timers s h = ground arith

perform-timers : (calls : List Call) (s : EventEmitter) → (perform calls s).timers ≡ s.timers
unfolding perform add_timer cancel_timer
perform-timers [] s = refl
perform-timers (adds e ∷ rest) s = perform-timers rest (add_timer s e)
perform-timers (cancels h ∷ rest) s =
    perform-timers rest (cancel_timer s h) ∙ cancel_timer-timers s h

pub run_expired_lem :
    (now : ℕ → ℕ) (calls : ℕ → List Call) (k : ℕ) (kept rest : List Timer) (next : Option ℕ)
    (s : EventEmitter)
    → s.timers ≡ kept ++ rest
    → let r = run_expired now calls k kept rest next s in
      (r.fired ≡ due now k rest)
      × (r.state.timers ≡ kept ++ undue now k rest)
      × (r.next_timer ≡ soonest next (undue now k rest))
unfolding run_expired due undue soonest
run_expired_lem now calls k kept [] next s e = (refl, e, refl)
run_expired_lem now calls k kept (it ∷ rest) next s e = elim (Bool-cases (leb it.expiry (now k))) [
  | inl b ↦
      let s' = record (perform (calls it.handle) s) { timers = kept ++ rest } in
      let (f, t, n) = run_expired_lem now calls (suc k) kept rest next s' refl in
      rw b (ap (λ l. it ∷ l) f, t, n)
  | inr b ↦
      let (f, t, n) =
        run_expired_lem now calls (suc k) (kept ++ (it ∷ [])) rest (sooner next it.expiry) s
          (e ∙ sym (append_assoc kept (it ∷ []) rest)) in
      rw b (f, t ∙ append_assoc kept (it ∷ []) (undue now (suc k) rest), n)
]

-- Those that are in a list of timers wait for the delay at most.
abbrev pub WakesFor : Option ℕ → ℕ → List Timer → Type 0
WakesFor d now [] = Unit {0}
WakesFor d now (t ∷ ts) = ((w : ℕ) × (d ≡ some w) × (w ≤ t.expiry - now)) × WakesFor d now ts

soonest-some :
    (next : ℕ) (ts : List Timer) → (n : ℕ) × (soonest (some next) ts ≡ some n) × (n ≤ next)
unfolding soonest
soonest-some next [] = (next, refl, omega arith)
soonest-some next (t ∷ ts) = elim (Bool-cases (ltb t.expiry next)) [
  | inl b ↦ let (n, e, l) = soonest-some t.expiry ts in rw b (n, e, ground (arith, b, l))
  | inr b ↦ let (n, e, l) = soonest-some next ts in rw b (n, e, l)
]

soonest_first :
    (next : Option ℕ) (x now : ℕ) (ts : List Timer)
    → (w : ℕ) × (delay (soonest (sooner next x) ts) now ≡ some w) × (w ≤ x - now)
soonest_first none x now ts =
    let (n, e, l) = soonest-some x ts in (n - now, rw e refl, omega (arith, l))
soonest_first (some next) x now ts = elim (Bool-cases (ltb x next)) [
  | inl b ↦ let (n, e, l) = soonest-some x ts in rw b (n - now, rw e refl, omega (arith, l))
  | inr b ↦ let (n, e, l) = soonest-some next ts in rw b (n - now, rw e refl, ground (arith, l, b))
]

soonest-WakesFor :
    (next : Option ℕ) (now : ℕ) (ts : List Timer) → WakesFor (delay (soonest next ts) now) now ts
unfolding soonest
soonest-WakesFor next now [] = tt
soonest-WakesFor next now (t ∷ ts) =
    (soonest_first next t.expiry now ts, soonest-WakesFor (sooner next t.expiry) now ts)

-- The timers that are looked at in a pass.
unfoldable pub current : EventEmitter → List Timer
current s = without s.timer_deletions (s.timers ++ activate s.timer_additions)

pub update_lem :
    (s : EventEmitter)
    → AllActive s.timers
    → update s ≡ some (record s { timer_additions = []; timer_deletions = []; timers = current s })
unfolding update current
update_lem s p =
    rw
      (delete_all_lem s.timer_deletions (s.timers ++ activate s.timer_additions) (
        AllActive-append s.timers (activate s.timer_additions) p
          (AllActive-activate s.timer_additions)))
      refl

pub pass_running :
    (now : ℕ → ℕ) (calls : ℕ → List Call) (s s1 : EventEmitter)
    → s.running ≡ true
    → update s ≡ some s1
    → pass now calls s ≡ waiting now (run_expired now calls 0 [] s1.timers none s1)
unfolding pass
pass_running now calls s s1 e u = ground (arith, e, u)

-- A pass of a running emitter fails no assertion. It runs, in the order of the list, exactly the timers
-- that are due when it looks at them, of the old and the new ones without the cancelled ones, whatever the
-- callbacks call, and keeps exactly the others; then it waits no longer than until the first of these is
-- due.
pub pass_lem :
    (now : ℕ → ℕ) (calls : ℕ → List Call) (s : EventEmitter)
    → AllActive s.timers
    → s.running ≡ true
    → (s' : EventEmitter) × (d : Option ℕ) × (k : ℕ) × (pass now calls s
        ≡ waits s' (due now 0 (current s)) d)
      × (s'.timers ≡ undue now 0 (current s))
      × WakesFor d (now k) s'.timers
pass_lem now calls s p e =
    let s1 = record s { timer_additions = []; timer_deletions = []; timers = current s } in
    let r = run_expired now calls 0 [] (current s) none s1 in
    let (f, t, n) = run_expired_lem now calls 0 [] (current s) none s1 refl in
    let d = delay r.next_timer (now r.readings) in
    (
      r.state,
      d,
      r.readings,
      pass_running now calls s s1 e (update_lem s p) ∙ ap (λ l. waits r.state l d) f,
      t,
      subst (λ l. WakesFor d (now r.readings) l) (sym t)
          (subst
            (λ o. WakesFor (delay o (now r.readings)) (now r.readings) (undue now 0 (current s)))
            (sym n) (soonest-WakesFor none (now r.readings) (undue now 0 (current s)))),
    )
