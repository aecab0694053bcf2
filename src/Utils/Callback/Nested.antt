-- ===== src/Utils/Callback/Nested.antt =====
-- Calls of one `Callback` of common/utils/callbacks.h that overlap.
use natbuster.Prelude.{ℕ, zero, suc, ◌≡◌, refl, ap, ◌∙◌, [], ◌∷◌, arith}
use natbuster.Utils.Callback.{
  nullptr, checkout_ptr, object, dispose, replace, unless_checked_out, checkout, checkback,
  Callback, set, call_begin, call_end, sets, begins_call, ends_call, Reach, next_step,
}

-- A call from start to end, in which nobody else does anything with the pointer.
unfoldable pub call : Callback → Callback
call c = call_end (unless_checked_out c.cb) c.calls (call_begin c)

-- So many further calls, each from start to end.
unfoldable pub calls_more : ℕ → Callback → Callback
calls_more zero c = c
calls_more (suc n) c = calls_more n (call c)

-- A call in which so many others start and end.
unfoldable pub call_over : ℕ → Callback → Callback
call_over n c = call_end (unless_checked_out c.cb) c.calls (calls_more n (call_begin c))

call_null : (c : Callback) → c.cb ≡ nullptr → call c ≡ c
unfolding call call_begin call_end checkout unless_checked_out checkback
call_null c e = ground (arith, e)

calls_more_null : (n : ℕ) (c : Callback) → c.cb ≡ nullptr → calls_more n c ≡ c
unfolding calls_more
calls_more_null zero c e = refl
calls_more_null (suc n) c e = ap (calls_more n) (call_null c e) ∙ calls_more_null n c e

call_checked_out : (c : Callback) → c.cb ≡ checkout_ptr → call c ≡ record c { cb = nullptr }
unfolding call call_begin call_end checkout unless_checked_out checkback
call_checked_out c e = ground (arith, e)

over_lem :
    (n : ℕ) (c : Callback)
    → calls_more (suc n) (call_begin c) ≡ record (call_begin c) { cb = nullptr }
unfolding calls_more call_begin checkout
over_lem n c =
    ap (calls_more n) (call_checked_out (call_begin c) refl)
    ∙ calls_more_null n (record (call_begin c) { cb = nullptr }) refl

-- A call that no other overlaps leaves the callback as it was. If during the call another one starts and
-- ends, from another thread or from the called code, the callback is null and its object deleted when
-- the first call ends, however many others there are.
pub call_over_lem :
    (n p : ℕ) (c : Callback)
    → c.cb ≡ object p
    → (call_over 0 c ≡ c)
      × (call_over (suc n) c ≡ record c { cb = nullptr; deleted = p ∷ c.deleted })
unfolding call_over call_begin call_end calls_more checkout unless_checked_out checkback dispose
call_over_lem n p c e =
    (ground (arith, e), ap (call_end (unless_checked_out c.cb) c.calls) (over_lem n c) ∙ rw e refl)

-- A thread calls the callback, another sets a new object, and a third calls that before the first call ends.
unfoldable pub call_set_call : Callback → Callback
call_set_call c =
    let first = unless_checked_out c.cb in
    let at_second = set (call_begin c) in
    let s = call_begin at_second in
    call_end (unless_checked_out at_second.cb) c.calls
      (call_end first (unless_checked_out at_second.cb ∷ c.calls) s)

-- The end of the first call then brings the old object back, and that of the second deletes the new one,
-- which was set after it.
pub call_set_call_lem :
    (p : ℕ) (c : Callback)
    → c.cb ≡ object p
    → (call_set_call c).cb ≡ object p × ((call_set_call c).deleted ≡ c.next ∷ c.deleted)
unfolding call_set_call call_begin call_end set replace checkout unless_checked_out checkback
    dispose
call_set_call_lem p c e = (rw e refl, rw e refl)

-- Each step of it is one that threads can do.
pub call_set_call-Reach :
    (p : ℕ) (c : Callback) → c.cb ≡ object p → Reach c → Reach (call_set_call c)
unfolding call_set_call call_begin call_end set replace checkout
call_set_call-Reach p c e r =
    let first = unless_checked_out c.cb in
    let s = set (call_begin c) in
    let a =
      next_step (next_step (next_step r (begins_call c)) (sets (call_begin c))) (begins_call s) in
    let b =
      next_step a (ends_call first (unless_checked_out s.cb ∷ []) c.calls (call_begin s) refl) in
    next_step b (ends_call (unless_checked_out s.cb) [] c.calls _ refl)
