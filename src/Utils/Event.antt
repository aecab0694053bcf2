-- ===== src/Utils/Event.antt =====
-- The timers of `EventEmitter` in common/utils/event.h: `add_timer`, `cancel_timer`, `stop` and one pass of
-- `loop`. A timer is known by a number, as its handle, a weak pointer, knows it; the list that holds it
-- owns it. The clock is read several times in a pass, so it is a function of the reading. What a callback
-- does to the timers is a parameter, a list of calls.
pub mod Pass
pub mod Runs
pub mod Once
mod Tests
use natbuster.Prelude.{
  ℕ, suc, ◌+◌, ◌-◌, ◌<◌, ◌≡◌, Bool, true, false, Option, none, some, List, [], ◌∷◌, ◌++◌, ltb, leb,
  ◌==◌, if◌then◌else◌, ◌>>=◌,
}

pub record Timer : Type 0 where
  pub handle : ℕ
  pub expiry : ℕ
  pub active : Bool

-- The handles from `next` on are not given out yet. `timers` is the local list of `loop`.
pub record EventEmitter : Type 0 where
  pub timer_additions : List Timer
  pub timer_deletions : List ℕ
  pub timers : List Timer
  pub running : Bool
  pub next : ℕ

unfoldable pub add_timer : EventEmitter → ℕ → EventEmitter
add_timer s expiry = record s {
  timer_additions =
      s.timer_additions ++ (record { handle = s.next; expiry = expiry; active = false } ∷ []);
  next = suc s.next;
}

-- `lock`: the timer, if a list still holds it.
unfoldable pub lock : ℕ → List Timer → Option Timer
lock hwnd [] = none
lock hwnd (t ∷ ts) = if t.handle == hwnd then some t else lock hwnd ts

-- `erase` of the iterator that the timer keeps.
unfoldable pub erase : ℕ → List Timer → List Timer
erase hwnd [] = []
erase hwnd (t ∷ ts) = let rest = erase hwnd ts in if t.handle == hwnd then rest else t ∷ rest

unfoldable pub cancel_timer : EventEmitter → ℕ → EventEmitter
cancel_timer s hwnd = elim (lock hwnd (s.timer_additions ++ s.timers)) [
  | none ↦ s
  | some t ↦
      if t.active
      then record s { timer_deletions = s.timer_deletions ++ (hwnd ∷ []) }
      else record s { timer_additions = erase hwnd s.timer_additions }
]

unfoldable pub stop : EventEmitter → EventEmitter
stop s = record s { running = false }

unfoldable pub activate : List Timer → List Timer
activate [] = []
activate (t ∷ ts) = (record t { active = true }) ∷ activate ts

-- The deletions, on the list of timers. An assertion that fails is `none`.
unfoldable pub delete_all : List ℕ → List Timer → Option (List Timer)
delete_all [] timers = some timers
delete_all (hwnd ∷ rest) timers = elim (lock hwnd timers) [
  | none ↦ delete_all rest timers
  | some its ↦ if its.active then delete_all rest (erase hwnd timers) else none
]

-- `Execute the timer updates`
unfoldable pub update : EventEmitter → Option EventEmitter
update s = delete_all s.timer_deletions (s.timers ++ activate s.timer_additions) >>= λ timers.
    some (record s { timer_additions = []; timer_deletions = []; timers = timers })

-- What a callback calls.
pub data Call : Type 0 where
  adds : ℕ → Call
  cancels : ℕ → Call

unfoldable pub perform : List Call → EventEmitter → EventEmitter
perform [] s = s
perform (adds expiry ∷ rest) s = perform rest (add_timer s expiry)
perform (cancels hwnd ∷ rest) s = perform rest (cancel_timer s hwnd)

-- The smaller of the next time so far and another.
abbrev pub sooner : Option ℕ → ℕ → Option ℕ
sooner none expiry = some expiry
sooner (some next) expiry = if ltb expiry next then some expiry else some next

pub record Ran : Type 0 where
  pub state : EventEmitter
  pub fired : List Timer
  pub next_timer : Option ℕ
  pub readings : ℕ

-- `Run expired timers`, from the reading `k` on: `kept` is before the iterator, and the list is what is
-- from it on. The timer that fires is in the list until its callback has returned.
unfoldable pub run_expired :
    (ℕ → ℕ) → (ℕ → List Call) → ℕ → List Timer → List Timer → Option ℕ → EventEmitter → Ran
run_expired now calls k kept [] next s = record {
  state = s;
  fired = [];
  next_timer = next;
  readings = k;
}
run_expired now calls k kept (it ∷ rest) next s =
    let fire =
      run_expired now calls (suc k) kept rest next
        (record (perform (calls it.handle) s) { timers = kept ++ rest }) in
    let keep = run_expired now calls (suc k) (kept ++ (it ∷ [])) rest (sooner next it.expiry) s in
    if leb it.expiry (now k) then (record fire { fired = it ∷ fire.fired }) else keep

-- The delay of a pass: `none` is no limit.
abbrev pub delay : Option ℕ → ℕ → Option ℕ
delay none now = none
delay (some next) now = some (next - now)

-- What a pass comes to: the loop ends, or the emitter waits for the delay; or an assertion fails.
pub data Outcome : Type 0 where
  ended : Outcome
  waits : EventEmitter → List Timer → Option ℕ → Outcome
  failed : Outcome

abbrev pub waiting : (ℕ → ℕ) → Ran → Outcome
waiting now r = waits r.state r.fired (delay r.next_timer (now r.readings))

unfoldable pub pass : (ℕ → ℕ) → (ℕ → List Call) → EventEmitter → Outcome
pass now calls s =
    if s.running
    then elim (update s) [
      | none ↦ failed
      | some s1 ↦ waiting now (run_expired now calls 0 [] s1.timers none s1)
    ]
    else ended
