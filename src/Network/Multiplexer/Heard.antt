-- ===== src/Network/Multiplexer/Heard.antt =====
-- What each route of common/network/network.cpp is told of a packet.
use natbuster.Prelude.{
  ℕ, zero, suc, ◌+◌, ◌≡◌, refl, sym, ap, ◌∙◌, inl, inr, Bool, true, false, Bool-cases, none, some,
  Option-cases, List, [], ◌∷◌, ◌++◌, arith, ◌==◌, ==_iff, if◌then◌else◌,
}
use natbuster.Prelude.Assoc.{lookup}
use natbuster.Network.Multiplexer.{
  Event, start_of, error_of, close_of, packet_of, unfiltered_of, each_route, to_route,
}

-- How often a route is in a list.
unfoldable pub times : ℕ → List ℕ → ℕ
times r [] = 0
times r (s ∷ ss) = (if s == r then 1 else 0) + times r ss

-- Whether an event is a call of a callback of that route, and of which of all routes.
abbrev pub calls : ℕ → Event → Bool
calls r (start_of s) = s == r
calls r (error_of s _) = s == r
calls r (close_of s) = s == r
calls r (packet_of s _) = s == r
calls r (unfiltered_of s _ _) = s == r
calls r _ = false

abbrev pub calls_any : Event → Bool
calls_any (start_of _) = true
calls_any (error_of _ _) = true
calls_any (close_of _) = true
calls_any (packet_of _ _) = true
calls_any (unfiltered_of _ _ _) = true
calls_any _ = false

-- What one route is told, and what the owner of the socket is told, in order.
unfoldable pub heard : ℕ → List Event → List Event
heard r [] = []
heard r (e ∷ es) = if calls r e then e ∷ heard r es else heard r es

unfoldable pub own : List Event → List Event
own [] = []
own (e ∷ es) = if calls_any e then own es else e ∷ own es

unfoldable pub copies : ℕ → List Event → List Event
copies zero es = []
copies (suc n) es = es ++ copies n es

self : (n : ℕ) → (n == n) ≡ true
self n = ground arith

pub heard-append : (r : ℕ) (xs ys : List Event) → heard r (xs ++ ys) ≡ heard r xs ++ heard r ys
unfolding heard
heard-append r [] ys = refl
heard-append r (x ∷ xs) ys = elim (Bool-cases (calls r x)) [
  | inl h ↦ rw (h, heard-append r xs ys) refl
  | inr h ↦ rw (h, heard-append r xs ys) refl
]

pub own-append : (xs ys : List Event) → own (xs ++ ys) ≡ own xs ++ own ys
unfolding own
own-append [] ys = refl
own-append (x ∷ xs) ys = elim (Bool-cases (calls_any x)) [
  | inl h ↦ rw (h, own-append xs ys) refl
  | inr h ↦ rw (h, own-append xs ys) refl
]

-- Whether the route object is there and has the address.
abbrev pub has_address : List (ℕ × ℕ) → ℕ → ℕ → Bool
has_address objects address r = elim (lookup r objects) [
  | none ↦ false
  | some remote ↦ remote == address
]

abbrev pub there : List (ℕ × ℕ) → ℕ → Bool
there objects r = elim (lookup r objects) [ none ↦ false | some remote ↦ true ]

-- What a route is to be told of a packet.
abbrev pub due : List (ℕ × ℕ) → List ℕ → ℕ → ℕ → List Event
due objects view address r =
    if there objects r
    then (if has_address objects address r then packet_of r view ∷ [] else [])
      ++ (unfiltered_of r view address ∷ [])
    else []

module _ (objects : List (ℕ × ℕ)) (view : List ℕ) (address : ℕ) where
  abbrev events : List ℕ → List Event
  events rs = (each_route objects (to_route view address) rs).1

  heard-to_route :
      (r remote : ℕ) → heard r (to_route view address r remote) ≡ to_route view address r remote
  unfolding heard
  heard-to_route r remote = elim (Bool-cases (remote == address)) [
    | inl h ↦ rw (h, self r) refl
    | inr h ↦ rw (h, self r) refl
  ]

  heard-other : (r s remote : ℕ) → (s == r) ≡ false → heard r (to_route view address s remote) ≡ []
  unfolding heard
  heard-other r s remote n = elim (Bool-cases (remote == address)) [
    | inl h ↦ rw (h, n) refl
    | inr h ↦ rw (h, n) refl
  ]

  own-to_route : (s remote : ℕ) → own (to_route view address s remote) ≡ []
  unfolding own
  own-to_route s remote = elim (Bool-cases (remote == address)) [
    | inl h ↦ rw h refl
    | inr h ↦ rw h refl
  ]

  due-to_route :
      (r remote : ℕ)
      → lookup r objects ≡ some remote
      → due objects view address r ≡ to_route view address r remote
  due-to_route r remote e = elim (Bool-cases (remote == address)) [
    | inl h ↦ ground (arith, e, h)
    | inr h ↦ ground (arith, e, h)
  ]

  due_gone : (r : ℕ) → lookup r objects ≡ none → due objects view address r ≡ []
  due_gone r e = ground (arith, e)

  events_gone : (s : ℕ) (rs : List ℕ) → lookup s objects ≡ none → events (s ∷ rs) ≡ events rs
  unfolding each_route
  events_gone s rs e = ground (arith, e)

  events_there :
      (s remote : ℕ) (rs : List ℕ)
      → lookup s objects ≡ some remote
      → events (s ∷ rs) ≡ to_route view address s remote ++ events rs
  unfolding each_route
  events_there s remote rs e = ground (arith, e)

  heard_here :
      (r n : ℕ) (rs : List ℕ)
      → heard r (events rs) ≡ copies n (due objects view address r)
      → heard r (events (r ∷ rs)) ≡ copies (suc n) (due objects view address r)
  unfolding copies
  heard_here r n rs h = elim (Option-cases (lookup r objects)) [
    | inl e ↦
        ap (heard r) (events_gone r rs e)
        ∙ h
        ∙ sym (ap (λ k. k ++ copies n (due objects view address r)) (due_gone r e))
    | inr (remote, e) ↦
        ap (heard r) (events_there r remote rs e)
        ∙ heard-append r (to_route view address r remote) (events rs)
        ∙ ap (λ k. k ++ heard r (events rs))
            (heard-to_route r remote ∙ sym (due-to_route r remote e))
        ∙ ap (λ k. due objects view address r ++ k) h
  ]

  heard_elsewhere :
      (r s : ℕ) (rs : List ℕ) → (s == r) ≡ false → heard r (events (s ∷ rs)) ≡ heard r (events rs)
  heard_elsewhere r s rs n = elim (Option-cases (lookup s objects)) [
    | inl e ↦ ap (heard r) (events_gone s rs e)
    | inr (remote, e) ↦
        ap (heard r) (events_there s remote rs e)
        ∙ heard-append r (to_route view address s remote) (events rs)
        ∙ ap (λ k. k ++ heard r (events rs)) (heard-other r s remote n)
  ]

  times_here : (r s : ℕ) (rs : List ℕ) → (s == r) ≡ true → times r (s ∷ rs) ≡ suc (times r rs)
  unfolding times
  times_here r s rs h = ground (arith, h)

  times_elsewhere : (r s : ℕ) (rs : List ℕ) → (s == r) ≡ false → times r (s ∷ rs) ≡ times r rs
  unfolding times
  times_elsewhere r s rs h = ground (arith, h)

  heard_nothing : (r : ℕ) → heard r (events []) ≡ copies (times r []) (due objects view address r)
  unfolding each_route heard copies times
  heard_nothing r = refl

  pub heard-events :
      (r : ℕ) (rs : List ℕ) → heard r (events rs) ≡ copies (times r rs) (due objects view address r)
  heard-events r [] = heard_nothing r
  heard-events r (s ∷ rs) =
      let d = due objects view address r in
      elim (Bool-cases (s == r)) [
        | inl h ↦
            ap (λ k. heard r (events (k ∷ rs))) ((==_iff s r).0 h)
            ∙ heard_here r (times r rs) rs (heard-events r rs)
            ∙ sym (ap (λ n. copies n d) (times_here r s rs h))
        | inr h ↦
            heard_elsewhere r s rs h
            ∙ heard-events r rs
            ∙ sym (ap (λ n. copies n d) (times_elsewhere r s rs h))
      ]

  pub own-events : (rs : List ℕ) → own (events rs) ≡ []
  unfolding each_route own
  own-events [] = refl
  own-events (s ∷ rs) = elim (Option-cases (lookup s objects)) [
    | inl e ↦ ap own (events_gone s rs e) ∙ own-events rs
    | inr (remote, e) ↦
        ap own (events_there s remote rs e)
        ∙ own-append (to_route view address s remote) (events rs)
        ∙ ap (λ k. k ++ own (events rs)) (own-to_route s remote)
        ∙ own-events rs
  ]
