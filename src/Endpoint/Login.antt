-- ===== src/Endpoint/Login.antt =====
-- Clients of common/endpoint/c2_server.cpp that log in, are asked for and close.
use natbuster.Prelude.{
  ℕ, true, leb, length, get_or, drop, length-drop, ◌≡◌, ◌≢◌, inl, inr, refl, ap, sym, ◌∙◌, subst,
  Option, none, some, List, [], ◌∷◌, arith, ◌==◌, Option-cases, some_inj,
}
use natbuster.Prelude.Assoc.{lookup}
use natbuster.Endpoint.Connections.{
  Place, unset, at_end, at_key, C2ServerEndpoint, C2Server, enter, on_open, connect, leave,
  on_close, on_pipe, route_to, pipe_user, number, opens_route, IsValid,
}
use natbuster.Endpoint.Table.{
  with_place, enter-IsValid, on_open-IsValid, connect-IsValid, closes_at,
}

-- The server from its start: connections are made, open their session once and close.
pub data Reach : C2Server → Type 0 where
  starts : Reach (record { connection_lookup = []; endpoints = [] })
  connects : (r : ℕ) {s : C2Server} → Reach s → lookup r s.endpoints ≡ none → Reach (connect s r)
  opens :
      (r : ℕ) (user : Option ℕ) {s : C2Server}
      → Reach s
      → lookup r s.endpoints ≡ some (with_place unset)
      → Reach (on_open s r user).0
  closed : (r : ℕ) {s s' : C2Server} → Reach s → on_close s r ≡ some s' → Reach s'

none_closes : (s : C2Server) (r : ℕ) → lookup r s.endpoints ≡ none → on_close s r ≡ none
unfolding on_close
none_closes s r e = ground (arith, e)

-- A connection that closes before its session has opened compares an iterator that was never set.
pub on_close-unset :
    (s : C2Server) (r : ℕ) → lookup r s.endpoints ≡ some (with_place unset) → on_close s r ≡ none
unfolding on_close leave
on_close-unset s r e = rw e refl

closed-IsValid :
    (s s' : C2Server) (r : ℕ) (place : Place)
    → IsValid s
    → lookup r s.endpoints ≡ some (with_place place)
    → on_close s r ≡ some s'
    → IsValid s'
closed-IsValid s s' r unset v n e = absurd (ground (arith, e, on_close-unset s r n))
closed-IsValid s s' r at_end v n e =
    let (t, run, w, _) = closes_at s r at_end v n (λ h. cc) in
    subst IsValid (some_inj t s' (sym run ∙ e)) w
closed-IsValid s s' r (at_key f) v n e =
    let (t, run, w, _) = closes_at s r (at_key f) v n (λ h. cc) in
    subst IsValid (some_inj t s' (sym run ∙ e)) w

-- In every state that the server reaches, the lookup table and the places of the connections in it agree:
-- each fingerprint of the table names a connection whose place it is, and each place is in the table.
pub Reach-IsValid : {s : C2Server} → Reach s → IsValid s
unfolding lookup
Reach-IsValid starts = record {
  listed = λ f r e. absurd (ground (arith, e));
  placed = λ r f e. absurd (ground (arith, e));
}
Reach-IsValid (connects r w e) = connect-IsValid _ r (Reach-IsValid w) e
Reach-IsValid (opens r user w e) = on_open-IsValid _ r user (Reach-IsValid w) e
Reach-IsValid (closed r {s} {s'} w e) = elim (Option-cases (lookup r s.endpoints)) [
  | inl n ↦ absurd (ground (arith, e, none_closes s r n))
  | inr (p, n) ↦ closed-IsValid s s' r p.self_lu (Reach-IsValid w) n e
]

-- In every state that the server reaches, a connection whose session has opened closes without failing:
-- its object goes, and no fingerprint names it any more.
pub on_close-Reach :
    (s : C2Server) (r : ℕ) (p : C2ServerEndpoint)
    → Reach s
    → lookup r s.endpoints ≡ some p
    → p.self_lu ≢ unset
    → (s' : C2Server) × (on_close s r ≡ some s')
      × (lookup r s'.endpoints ≡ none)
      × ((f : ℕ) → lookup f s'.connection_lookup ≢ some r)
on_close-Reach s r p w e n =
    let (s', run, v, gone) = closes_at s r p.self_lu (Reach-IsValid w) e n in
    (s', run, gone, λ f h. absurd (ground (arith, v.listed f r h, gone)))

route_to_lem :
    (s : C2Server) (src r : ℕ) (dst : List ℕ)
    → lookup (number dst) s.connection_lookup ≡ some r
    → route_to s src dst ≡ opens_route r src ∷ []
unfolding route_to
route_to_lem s src r dst e = ground (arith, e)

on_pipe_lem :
    (s : C2Server) (src : ℕ) (content : List ℕ)
    → length content ≡ 33
    → get_or content 0 0 ≡ pipe_user
    → on_pipe s (some src) content ≡ route_to s src (drop 1 content)
unfolding on_pipe
on_pipe_lem s src content l t =
    let size : leb 1 (length content) ≡ true = ground (arith, l) in
    let rest : (length (drop 1 content) == 32) ≡ true = ground (arith, length-drop 1 content, l) in
    let type : (get_or content 0 0 == pipe_user) ≡ true = ground (arith, t) in
    rw (size, type, rest) refl

-- A client that logs in is the one that its fingerprint names, and every pipe that another user then asks
-- for with that fingerprint is routed to it, with the fingerprint of the one who asks.
pub on_open-on_pipe :
    (s : C2Server) (r f src : ℕ) (content : List ℕ)
    → Reach s
    → lookup r s.endpoints ≡ some (with_place unset)
    → length content ≡ 33
    → get_or content 0 0 ≡ pipe_user
    → number (drop 1 content) ≡ f
    → on_pipe (on_open s r (some f)).0 (some src) content ≡ opens_route r src ∷ []
unfolding on_open
on_open-on_pipe s r f src content w e l t n =
    let here = (enter-IsValid s r f (Reach-IsValid w) e).1 in
    on_pipe_lem (enter s r f).0 src content l t
    ∙ route_to_lem (enter s r f).0 src r (drop 1 content)
        (ap (λ k. lookup k (enter s r f).0.connection_lookup) n ∙ here)
