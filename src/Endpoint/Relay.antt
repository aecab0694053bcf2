-- ===== src/Endpoint/Relay.antt =====
-- What the relays of common/endpoint pass on.
use natbuster.Prelude.{
  ℕ, ◌+◌, ◌≡◌, inl, inr, refl, subst, ap, ap₂, sym, ◌∙◌, Bool, true, false, Bool-cases, ◌||◌, ◌&&◌,
  some, Option-cases, List, [], ◌∷◌, ◌++◌, append_assoc, append-nil, arith, if◌then◌else◌,
}
use natbuster.Endpoint.Routes.{
  RouterTcpRoute, Effect, pipe_starts, socket_starts, pipe_sends, socket_sends, erases, pipe_closes,
  socket_closes, Event, socket_open, pipe_open, pipe_packet, socket_packet, error, pipe_close,
  socket_close, on_socket_open, on_pipe_open, leave, on_pipe_close, on_socket_close, step, run,
}

-- The packets in a list, by those in each element.
abbrev pub collect : {E : Type 0} → (E → List (List ℕ)) → List E → List (List ℕ)
collect f [] = []
collect f (e ∷ es) = f e ++ collect f es

-- What an end has sent to the relay, and what it gets.
abbrev pub from_pipe : Event → List (List ℕ)
from_pipe (pipe_packet view) = view ∷ []
from_pipe e = []

abbrev pub from_socket : Event → List (List ℕ)
from_socket (socket_packet view) = view ∷ []
from_socket e = []

abbrev pub to_pipe : Effect → List (List ℕ)
to_pipe (pipe_sends view) = view ∷ []
to_pipe e = []

abbrev pub to_socket : Effect → List (List ℕ)
to_socket (socket_sends view) = view ∷ []
to_socket e = []

abbrev pub is_erase : Effect → ℕ
is_erase erases = 1
is_erase e = 0

abbrev pub erased : List Effect → ℕ
erased [] = 0
erased (e ∷ es) = is_erase e + erased es

abbrev pub registered_once : RouterTcpRoute → ℕ
registered_once r = if r.registered then 1 else 0

abbrev pub is_close : Event → Bool
is_close pipe_close = true
is_close socket_close = true
is_close e = false

abbrev pub closes : List Event → Bool
closes [] = false
closes (e ∷ es) = is_close e || closes es

pub record Relayed (r : RouterTcpRoute) (es : List Event) (r' : RouterTcpRoute) (out : List Effect)
    : Type 0 where
  pub to_socket_all : collect to_socket out ≡ collect from_pipe es
  pub to_pipe_all : collect to_pipe out ≡ collect from_socket es
  pub erased_once : erased out + registered_once r' ≡ registered_once r
  pub left : r'.registered ≡ (if closes es then false else r.registered)

step-Relayed :
    (e : Event) (r r' : RouterTcpRoute) (out : List Effect)
    → step r e ≡ some (r', out)
    → Relayed r (e ∷ []) r' out
unfolding step on_socket_open on_pipe_open on_pipe_close on_socket_close leave
step-Relayed socket_open r r' out h = ground (arith, h)
step-Relayed pipe_open r r' out h = ground (arith, h)
step-Relayed (pipe_packet v) r r' out h = ground (arith, h)
step-Relayed (socket_packet v) r r' out h = ground (arith, h)
step-Relayed (error c) r r' out h = ground (arith, h)
step-Relayed pipe_close r r' out h = ground (arith, h)
step-Relayed socket_close r r' out h = ground (arith, h)

collect-append :
    {E : Type 0} (f : E → List (List ℕ)) (xs ys : List E)
    → collect f (xs ++ ys) ≡ collect f xs ++ collect f ys
collect-append f [] ys = refl
collect-append f (x ∷ xs) ys =
    ap (λ r. f x ++ r) (collect-append f xs ys)
    ∙ sym (append_assoc (f x) (collect f xs) (collect f ys))

erased-append : (xs ys : List Effect) → erased (xs ++ ys) ≡ erased xs + erased ys
erased-append [] ys = omega arith
erased-append (x ∷ xs) ys = omega (arith, erased-append xs ys)

then_Relayed :
    (e : Event) (es : List Event) (r s t : RouterTcpRoute) (out more : List Effect)
    → Relayed r (e ∷ []) s out
    → Relayed s es t more
    → Relayed r (e ∷ es) t (out ++ more)
then_Relayed e es r s t out more p q = record {
  to_socket_all =
      collect-append to_socket out more
      ∙ ap₂ ◌++◌ (p.to_socket_all ∙ append-nil (from_pipe e)) q.to_socket_all;
  to_pipe_all =
      collect-append to_pipe out more
      ∙ ap₂ ◌++◌ (p.to_pipe_all ∙ append-nil (from_socket e)) q.to_pipe_all;
  erased_once = omega (arith, erased-append out more, p.erased_once, q.erased_once);
  left = elim (Bool-cases (is_close e)) [
    | inl c ↦ ground (arith, c, p.left, q.left)
    | inr c ↦ ground (arith, c, p.left, q.left)
  ];
}

run_relays :
    (es : List Event) (r r' : RouterTcpRoute) (out : List Effect)
    → run r es ≡ some (r', out)
    → Relayed r es r' out
unfolding run
run_relays [] r r' out h = ground (arith, h)
run_relays (e ∷ es) r r' out h = elim (Option-cases (step r e)) [
  | inl n ↦ absurd (ground (arith, h, n))
  | inr (s, p) ↦ elim (Option-cases (run s.0 es)) [
    | inl n ↦ absurd (ground (arith, h, n, p))
    | inr (t, q) ↦
        let at_r : t.0 ≡ r' = ground (arith, h, p, q) in
        let at_out : s.1 ++ t.1 ≡ out = ground (arith, h, p, q) in
        subst (λ x. Relayed r (e ∷ es) x out) at_r
          (subst (λ o. Relayed r (e ∷ es) t.0 o) at_out
            (then_Relayed e es r s.0 t.0 s.1 t.1 (step-Relayed e r s.0 s.1 p)
              (run_relays es s.0 t.0 t.1 q)))
  ]
]

-- The events that a side has callbacks for: a client none for its socket's start, a server none for the
-- pipe's opening.
abbrev pub fits : Bool → Event → Bool
fits true socket_open = false
fits false pipe_open = false
fits c e = true

abbrev pub all_fit : Bool → List Event → Bool
all_fit c [] = true
all_fit c (e ∷ es) = fits c e && all_fit c es

step_total :
    (c : Bool) (e : Event) (r : RouterTcpRoute)
    → r.is_client ≡ c
    → fits c e ≡ true
    → (s : RouterTcpRoute) × (out : List Effect) × (step r e ≡ some (s, out)) × (s.is_client ≡ c)
unfolding step on_socket_open on_pipe_open on_pipe_close on_socket_close leave
step_total true socket_open r k f = cc
step_total false socket_open r k f = (r, pipe_starts ∷ [], ground (arith, k), k)
step_total true pipe_open r k f = (r, socket_starts ∷ [], ground (arith, k), k)
step_total false pipe_open r k f = cc
step_total c (pipe_packet v) r k f = (r, socket_sends v ∷ [], refl, k)
step_total c (socket_packet v) r k f = (r, pipe_sends v ∷ [], refl, k)
step_total c (error code) r k f = (r, [], refl, k)
step_total c pipe_close r k f = ((leave r).0, (leave r).1 ++ (socket_closes ∷ []), refl, k)
step_total c socket_close r k f = ((leave r).0, (leave r).1 ++ (pipe_closes ∷ []), refl, k)

run_total :
    (c : Bool) (es : List Event) (r : RouterTcpRoute)
    → r.is_client ≡ c
    → all_fit c es ≡ true
    → (r' : RouterTcpRoute) × (out : List Effect) × (run r es ≡ some (r', out))
unfolding run
run_total c [] r k f = (r, [], refl)
run_total c (e ∷ es) r k f =
    let (s, o1, p, k1) = step_total c e r k (ground (arith, f)) in
    let (t, o2, q) = run_total c es s k1 (ground (arith, f)) in (t, o1 ++ o2, rw (p, q) refl)

-- Whatever happens at the two ends, no assertion fails: each end gets exactly the packets of the other, in
-- order, and a route that was entered leaves the list once, with the first close of an end. (A client has
-- no callback for the start of its socket, and a server none for the opening of the pipe.)
pub run-Relayed :
    (es : List Event) (r : RouterTcpRoute)
    → all_fit r.is_client es ≡ true
    → (r' : RouterTcpRoute) × (out : List Effect) × (run r es ≡ some (r', out))
      × Relayed r es r' out
run-Relayed es r f =
    let (r', out, e) = run_total r.is_client es r refl f in (r', out, e, run_relays es r r' out e)
