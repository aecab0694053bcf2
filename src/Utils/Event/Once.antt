-- ===== src/Utils/Event/Once.antt =====
-- No timer of common/utils/event.h runs twice, and none that was cancelled runs.
use natbuster.Prelude.{
  ℕ, ◌+◌, ◌≤◌, ◌<◌, ◌≡◌, refl, ap, sym, subst, ◌∙◌, inl, inr, true, false, Bool-cases, Option, none,
  some, Option-cases, List, [], ◌∷◌, ◌++◌, arith,
}
use natbuster.Utils.Event.{
  Timer, EventEmitter, add_timer, lock, erase, cancel_timer, stop, activate, Call, waits, pass,
}
use natbuster.Utils.Event.Pass.{without, current, AllActive, AllActive-append, AllActive-activate}
use natbuster.Utils.Event.Runs.{
  times, times-append, times-erase_self, times-current, times-due, Reach, starts, adds_timer,
  cancels_timer, stops, passes, Room, add_timer-Room, cancel_timer-Room, AllActive-without,
  AllActive-undue, pass-Passed,
}

-- A timer is only once anywhere: waiting, or among those that have run.
pub record Once (s : EventEmitter) (ran : List Timer) : Type 0 where
  pub all_active : AllActive s.timers
  pub once : (h : ℕ) → Room h (times h s.timers + times h ran) s

add_timer-Once :
    (s : EventEmitter) (ran : List Timer) (e : ℕ) → Once s ran → Once (add_timer s e) ran
unfolding add_timer
add_timer-Once s ran e o = record {
  all_active = o.all_active;
  once = λ h. add_timer-Room h (times h s.timers + times h ran) s e (o.once h);
}

cancel_timer-timers : (s : EventEmitter) (j : ℕ) → (cancel_timer s j).timers ≡ s.timers
unfolding cancel_timer
cancel_timer-timers s j = ground arith

cancel_timer-Once :
    (s : EventEmitter) (ran : List Timer) (j : ℕ) → Once s ran → Once (cancel_timer s j) ran
cancel_timer-Once s ran j o =
    let e = sym (cancel_timer-timers s j) in
    record {
      all_active = subst AllActive e o.all_active;
      once = λ h.
          subst (λ l. Room h (times h l + times h ran) (cancel_timer s j)) e
            (cancel_timer-Room h (times h s.timers + times h ran) j s (o.once h));
    }

current-AllActive : (s : EventEmitter) → AllActive s.timers → AllActive (current s)
unfolding current
current-AllActive s p =
    AllActive-without s.timer_deletions (s.timers ++ activate s.timer_additions) (
      AllActive-append s.timers (activate s.timer_additions) p
        (AllActive-activate s.timer_additions))

pass-Once :
    (now : ℕ → ℕ) (calls : ℕ → List Call) (s s' : EventEmitter) (d : Option ℕ)
    (fired ran : List Timer)
    → Once s ran
    → pass now calls s ≡ waits s' fired d
    → Once s' (fired ++ ran)
pass-Once now calls s s' d fired ran o e =
    let p = pass-Passed now calls s s' d fired o.all_active e in
    record {
      all_active =
          subst AllActive (sym p.keeps)
            (AllActive-undue now 0 (current s) (current-AllActive s o.all_active));
      once = λ h. p.rooms h (times h s'.timers + times h (fired ++ ran)) (
          omega (
            arith,
            times-append h fired ran,
            ap (times h) p.fires,
            ap (times h) p.keeps,
            times-due h now 0 (current s),
            times-current h s,
            o.once h,
          ));
    }

stop-Once : (s : EventEmitter) (ran : List Timer) → Once s ran → Once (stop s) ran
unfolding stop
stop-Once s ran o = record { all_active = o.all_active; once = o.once }

-- Whatever is added, cancelled and called, and however the clock runs, each timer runs at most once, and
-- one that has run waits no more.
pub Reach-Once : {s : EventEmitter} {ran : List Timer} → Reach s ran → Once s ran
unfolding times
Reach-Once starts = record { all_active = tt; once = λ h. omega arith }
Reach-Once (adds_timer e {s} {ran} r) = add_timer-Once s ran e (Reach-Once r)
Reach-Once (cancels_timer h {s} {ran} r) = cancel_timer-Once s ran h (Reach-Once r)
Reach-Once (stops {s} {ran} r) = stop-Once s ran (Reach-Once r)
Reach-Once (passes now calls d fired {s} {s'} {ran} r e) =
    pass-Once now calls s s' d fired ran (Reach-Once r) e

without-append :
    (del : List ℕ) (h : ℕ) (xs : List Timer)
    → without (del ++ (h ∷ [])) xs ≡ erase h (without del xs)
unfolding without
without-append [] h xs = refl
without-append (d ∷ del) h xs = without-append del h (erase d xs)

lock-none : (h : ℕ) (xs : List Timer) → lock h xs ≡ none → times h xs ≡ 0
unfolding lock times
lock-none h [] e = refl
lock-none h (x ∷ xs) e = ground (arith, e, lock-none h xs)

-- A timer that is found and not active is a new one.
lock_inactive :
    (h : ℕ) (new old : List Timer) (t : Timer)
    → AllActive old
    → lock h (new ++ old) ≡ some t
    → t.active ≡ false
    → 1 ≤ times h new
unfolding lock times
lock_inactive h [] [] t p e i = cc
lock_inactive h [] (x ∷ xs) t p e i = ground (arith, e, i, p, lock_inactive h [] xs t)
lock_inactive h (x ∷ xs) old t p e i = ground (arith, e, i, p, lock_inactive h xs old t)

module _ (s : EventEmitter) (h : ℕ) where
  cancel_none : lock h (s.timer_additions ++ s.timers) ≡ none → cancel_timer s h ≡ s
  unfolding cancel_timer
  cancel_none e = ground (arith, e)

  cancel_active :
      (t : Timer)
      → lock h (s.timer_additions ++ s.timers) ≡ some t
      → t.active ≡ true
      → cancel_timer s h ≡ record s { timer_deletions = s.timer_deletions ++ (h ∷ []) }
  unfolding cancel_timer
  cancel_active t e a = ground (arith, e, a)

  cancel_inactive :
      (t : Timer)
      → lock h (s.timer_additions ++ s.timers) ≡ some t
      → t.active ≡ false
      → cancel_timer s h ≡ record s { timer_additions = erase h s.timer_additions }
  unfolding cancel_timer
  cancel_inactive t e a = ground (arith, e, a)

  cancel_next : (cancel_timer s h).next ≡ s.next
  unfolding cancel_timer
  cancel_next = ground arith

current_deleted :
    (s : EventEmitter) (h : ℕ)
    → times h (current (record s { timer_deletions = s.timer_deletions ++ (h ∷ []) })) ≡ 0
unfolding current
current_deleted s h =
    let l = s.timers ++ activate s.timer_additions in
    ap (times h) (without-append s.timer_deletions h l)
    ∙ times-erase_self h (without s.timer_deletions l)

cancelled_times :
    (s : EventEmitter) (h : ℕ)
    → AllActive s.timers
    → times h s.timer_additions + times h s.timers ≤ 1
    → times h (current (cancel_timer s h)) ≡ 0
cancelled_times s h p o = elim (Option-cases (lock h (s.timer_additions ++ s.timers))) [
  | inl e ↦
      let none_there = lock-none h (s.timer_additions ++ s.timers) e in
      ap (λ z. times h (current z)) (cancel_none s h e)
      ∙ omega (arith, none_there, times-append h s.timer_additions s.timers, times-current h s)
  | inr (t, e) ↦ elim (Bool-cases t.active) [
    | inl a ↦ ap (λ z. times h (current z)) (cancel_active s h t e a) ∙ current_deleted s h
    | inr a ↦
        let s1 = record s { timer_additions = erase h s.timer_additions } in
        ap (λ z. times h (current z)) (cancel_inactive s h t e a)
        ∙ omega (
          arith,
          times-current h s1,
          times-erase_self h s.timer_additions,
          lock_inactive h s.timer_additions s.timers t p e a,
        )
  ]
]

-- A timer that is cancelled before a pass is neither run in it nor waiting afterwards.
pub cancel_timer-pass :
    (now : ℕ → ℕ) (calls : ℕ → List Call) (s s' : EventEmitter) (ran fired : List Timer)
    (d : Option ℕ) (h : ℕ)
    → Reach s ran
    → h < s.next
    → pass now calls (cancel_timer s h) ≡ waits s' fired d
    → (times h fired ≡ 0) × (times h s'.timers ≡ 0) × (times h s'.timer_additions ≡ 0)
cancel_timer-pass now calls s s' ran fired d h r l e =
    let o = Reach-Once r in
    let c = cancel_timer-Once s ran h o in
    let p = pass-Passed now calls (cancel_timer s h) s' d fired c.all_active e in
    let z = cancelled_times s h o.all_active (ground (arith, o.once h)) in
    (
      omega (arith, ap (times h) p.fires, times-due h now 0 (current (cancel_timer s h)), z),
      omega (arith, ap (times h) p.keeps, times-due h now 0 (current (cancel_timer s h)), z),
      ground (arith, p.rooms h 1, cancel_next s h),
    )
