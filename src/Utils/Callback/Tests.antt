-- ===== src/Utils/Callback/Tests.antt =====
-- Runs of the `Callback` of Utils/Callback.
use natbuster.Prelude.{◌≡◌, refl, [], ◌∷◌}
use natbuster.Utils.Callback.{
  nullptr, object, null_callback, Callback, set, call_begin, call_end, begins_call, ends_call, sets,
  replace, checkout, unless_checked_out, checkback, dispose, start, next_step,
}
use natbuster.Utils.Callback.Owners.{places, made, Reach-places}
use natbuster.Utils.Callback.Nested.{call_over, call_over_lem}

abbrev one_object : Callback
one_object = record null_callback { cb = object 0; next = 1 }

-- The object is replaced while it runs, and deleted when its call ends.
Reach-places_example :
    made 0 (call_end (object 0) [] (set (call_begin (set null_callback))))
    ≡ places 0 (call_end (object 0) [] (set (call_begin (set null_callback))))
unfolding set call_begin call_end replace checkout unless_checked_out checkback dispose
Reach-places_example =
    Reach-places
      (next_step
        (next_step (next_step (next_step start (sets _)) (begins_call (set null_callback)))
          (sets (call_begin (set null_callback))))
        (ends_call (object 0) [] [] (set (call_begin (set null_callback))) refl))
      0

call_over_example :
    (call_over 0 one_object ≡ one_object)
    × (call_over 2 one_object ≡ record one_object { cb = nullptr; deleted = 0 ∷ [] })
call_over_example = call_over_lem 1 0 one_object refl
