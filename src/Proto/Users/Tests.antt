-- ===== src/Proto/Users/Tests.antt =====
-- Tests of Proto/Users.
use natbuster.Prelude.{◌≡◌, refl, some, [], ◌∷◌}
use natbuster.Proto.Keys.{User, find_user, is_member, add_user}
use natbuster.Proto.Sample.{number_keys, number_keys_apart}
use natbuster.Proto.Users.{is_some, no_users, added, is_member-find_user}

abbrev ann : User number_keys
ann = record { name = 97 ∷ []; key = some 3; ports = [] }

is_member-find_user_example :
    is_member number_keys (add_user number_keys [] ann).0 3
    ≡ is_some (find_user number_keys (add_user number_keys [] ann).0 3)
is_member-find_user_example =
    is_member-find_user number_keys (add_user number_keys [] ann).0 3 (3 ∷ []) number_keys_apart
      (added ann 3 (3 ∷ []) refl refl no_users) refl
