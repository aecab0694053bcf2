-- ===== src/Utils/Callback.antt =====
-- `Callback` of common/utils/callbacks.h: the atomic pointer, each operation cut at its atomic accesses.
-- A callback object is a number; the set of objects that were deleted is kept as a list.
pub mod Owners
pub mod Nested
mod Tests
use natbuster.Prelude.{ℕ, suc, ◌≡◌, List, [], ◌∷◌, ◌++◌}

-- `raw_type`: `nullptr`, `checkout_ptr`, or an object.
pub data RawType : Type 0 where
  nullptr : RawType
  checkout_ptr : RawType
  object : ℕ → RawType

-- `dispose`: the objects that it deletes.
unfoldable pub dispose : RawType → List ℕ
dispose nullptr = []
dispose checkout_ptr = []
dispose (object p) = p ∷ []

-- `replace`: the new pointer, and what is deleted.
unfoldable pub replace : RawType → RawType → RawType × List ℕ
replace cb slot = (cb, dispose slot)

-- What `extract` and `checkout` hand on of the old value.
unfoldable pub unless_checked_out : RawType → RawType
unless_checked_out nullptr = nullptr
unless_checked_out checkout_ptr = nullptr
unless_checked_out (object p) = object p

-- The new pointer, and the one that is returned.
unfoldable pub extract : RawType → RawType × RawType
extract slot = (nullptr, unless_checked_out slot)

unfoldable pub checkout : RawType → RawType × RawType
checkout slot = (checkout_ptr, unless_checked_out slot)

-- The new pointer, and what is deleted: the exchange happens only if the pointer is `checkout_ptr`.
unfoldable pub checkback : RawType → RawType → RawType × List ℕ
checkback back nullptr = (nullptr, dispose back)
checkback back checkout_ptr = (back, [])
checkback back (object p) = (object p, dispose back)

-- A `Callback` with all that threads do on it: the calls that run, by the pointer that each has checked
-- out; those of `call_and_clear`; the objects that went to another `Callback`; and the deleted ones.
-- The objects from `next` on are not made yet.
pub record Callback : Type 0 where
  pub cb : RawType
  pub calls : List RawType
  pub clears : List RawType
  pub moved : List ℕ
  pub deleted : List ℕ
  pub next : ℕ

abbrev pub null_callback : Callback
null_callback = record { cb = nullptr; calls = []; clears = []; moved = []; deleted = []; next = 0 }

-- `operator=` with a new object.
unfoldable pub set : Callback → Callback
set c =
    let r = replace (object c.next) c.cb in
    record c { cb = r.0; deleted = r.1 ++ c.deleted; next = suc c.next }

-- `clear`, and what the destructor does.
unfoldable pub clear : Callback → Callback
clear c = let r = replace nullptr c.cb in record c { cb = r.0; deleted = r.1 ++ c.deleted }

-- `call` up to the user's code, and from it on.
unfoldable pub call_begin : Callback → Callback
call_begin c = let r = checkout c.cb in record c { cb = r.0; calls = r.1 ∷ c.calls }

unfoldable pub call_end : RawType → List RawType → Callback → Callback
call_end cb rest c =
    let r = checkback cb c.cb in record c { cb = r.0; calls = rest; deleted = r.1 ++ c.deleted }

unfoldable pub clear_begin : Callback → Callback
clear_begin c = let r = extract c.cb in record c { cb = r.0; clears = r.1 ∷ c.clears }

unfoldable pub clear_end : RawType → List RawType → Callback → Callback
clear_end cb rest c = record c { clears = rest; deleted = dispose cb ++ c.deleted }

-- `move_from_safe_other` of another `Callback` from this one; the object is the other's from then on.
unfoldable pub move_out : Callback → Callback
move_out c = let r = extract c.cb in record c { cb = r.0; moved = dispose r.1 ++ c.moved }

-- What any number of threads do, in any order: each step is one atomic access.
pub data Step : Callback → Callback → Type 0 where
  sets : (c : Callback) → Step c (set c)
  clears_it : (c : Callback) → Step c (clear c)
  begins_call : (c : Callback) → Step c (call_begin c)
  ends_call :
      (cb : RawType) (before after : List RawType) (c : Callback)
      → c.calls ≡ before ++ (cb ∷ after)
      → Step c (call_end cb (before ++ after) c)
  begins_clear : (c : Callback) → Step c (clear_begin c)
  ends_clear :
      (cb : RawType) (before after : List RawType) (c : Callback)
      → c.clears ≡ before ++ (cb ∷ after)
      → Step c (clear_end cb (before ++ after) c)
  moves_out : (c : Callback) → Step c (move_out c)

pub data Reach : Callback → Type 0 where
  start : Reach null_callback
  next_step : {c d : Callback} → Reach c → Step c d → Reach d
