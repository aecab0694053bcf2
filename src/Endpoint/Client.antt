-- ===== src/Endpoint/Client.antt =====
-- `C2Client::on_pipe` of common/endpoint/c2_client.cpp: another client asks, through the server, for a
-- connection.
use natbuster.Prelude.{
  ℕ, ◌≡◌, ap, sym, ◌∙◌, inl, inr, Bool-cases, Option, none, some, Option-cases, List, [], ◌∷◌,
  arith, leb, ◌==◌, if◌then◌else◌, length, get_or, drop,
}
use natbuster.Proto.Keys.{
  Keys, User, UserGroup, same_bytes, find_by_fingerprint, find_user, add_user,
}
use natbuster.Proto.Users.{IsValid, Built, Built-IsValid, add_new, same_bytes-eq}
use natbuster.Endpoint.Connections.{pipe_user}

module _ (K : Keys) where
  -- The users that the new session and the puncher trust, if the pipe is accepted.
  unfoldable pub on_pipe : UserGroup K → List ℕ → Option (UserGroup K)
  on_pipe authorised_clients content =
      if leb 1 (length content)
      then (if get_or content 0 0 == pipe_user
          then elim (find_by_fingerprint K authorised_clients (drop 1 content)) [
            | none ↦ none
            | some user ↦ some (add_user K [] user).0
          ]
          else none)
      else none

  -- What `C2ServerEndpoint::on_pipe` opens the pipe to the other client with.
  unfoldable pub open_data : List ℕ → List ℕ
  open_data src_fingerprint = pipe_user ∷ src_fingerprint

  find-key :
      (group : UserGroup K) (f : List ℕ) (u : User K)
      → IsValid K group
      → find_by_fingerprint K group f ≡ some u
      → (key : K.PuKey) × (u.key ≡ some key) × (K.fingerprint key ≡ some f)
  unfolding find_by_fingerprint
  find-key [] f u v e = cc
  find-key (it ∷ rest) f u ((key, k, p), v) e = elim (Bool-cases (same_bytes it.0 f)) [
    | inl s ↦
        let here : it.1 ≡ u = ground (arith, e, s) in
        (key, sym (ap (λ w. w.key) here) ∙ k, p ∙ ap some (same_bytes-eq it.0 f s))
    | inr s ↦ find-key rest f u v (ground (arith, e, s))
  ]

  no_user : (key : K.PuKey) → find_user K [] key ≡ none
  unfolding find_user find_by_fingerprint
  no_user key = ground arith

  trusted :
      (group : UserGroup K) (f : List ℕ) (u : User K)
      → Built K group
      → find_by_fingerprint K group f ≡ some u
      → (add_user K [] u).0 ≡ (f, u) ∷ []
  trusted group f u b e =
      let (key, k, p) = find-key group f u (Built-IsValid K b) e in
      ap (λ r. r.0) (add_new K [] u key f k p (no_user key))

  -- What the server passes on of a client that asks is accepted exactly if the client who is asked knows a
  -- user with that fingerprint, and the new session then trusts that user under it, and nobody else.
  pub on_pipe-open_data :
      (group : UserGroup K) (f : List ℕ)
      → Built K group
      → on_pipe group (open_data f)
        ≡ (elim (find_by_fingerprint K group f) as (λ o. Option (UserGroup K)) [
          | none ↦ none
          | some u ↦ some ((f, u) ∷ [])
        ])
  unfolding on_pipe open_data
  on_pipe-open_data group f b = elim (Option-cases (find_by_fingerprint K group f)) [
    | inl e ↦ ground (arith, e)
    | inr (u, e) ↦ ground (arith, e, trusted group f u b e)
  ]
