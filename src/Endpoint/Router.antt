-- ===== src/Endpoint/Router.antt =====
-- `Router::on_pipe` of common/endpoint/router.cpp: whether a user may have a port forwarded.
use natbuster.Prelude.{
  ℕ, ◌<◌, ◌≤◌, ◌≡◌, inl, inr, ◌↔◌, refl, ap, sym, ◌∙◌, Bool, true, false, ◌&&◌, Option, none, some,
  List, [], ◌∷◌, arith, leb, ◌==◌, if◌then◌else◌, length, Bool-cases,
}
use natbuster.Prelude.Bytes.{le16, read16, read16-le16}
use natbuster.Proto.Keys.{PortSettings}
use mathlib.Core.List.{Memᴰ}
use mathlib.Core.List.Memᴰ

abbrev pub allows : ℕ → PortSettings → Bool
allows port it = leb it.port_min port && leb port it.port_max && it.dir_push && it.proto_tcp

unfoldable pub authorised : List PortSettings → ℕ → Bool
authorised [] port = false
authorised (it ∷ ports) port =
    let rest = authorised ports port in if allows port it then true else rest

-- The port to connect to, if the pipe is taken.
unfoldable pub on_pipe : List PortSettings → List ℕ → Option ℕ
on_pipe ports content =
    if length content == 2
    then (if authorised ports (read16 content) then some (read16 content) else none)
    else none

-- What the client side asks for.
unfoldable pub request : ℕ → List ℕ
request port = le16 port

-- The user has the port in a range of TCP ports that may be pushed.
pub record Permitted (ports : List PortSettings) (port : ℕ) : Type 0 where
  pub range : PortSettings
  pub given : Memᴰ range ports
  pub low : range.port_min ≤ port
  pub high : port ≤ range.port_max
  pub push : range.dir_push ≡ true
  pub tcp : range.proto_tcp ≡ true

allows_lem :
    (port : ℕ) (it : PortSettings)
    → allows port it ≡ true
    → (it.port_min ≤ port) × (port ≤ it.port_max) × (it.dir_push ≡ true) × (it.proto_tcp ≡ true)
allows_lem port it h = ground arith

authorised-Permitted :
    (ports : List PortSettings) (port : ℕ) → authorised ports port ≡ true → Permitted ports port
unfolding authorised
authorised-Permitted [] port h = cc
authorised-Permitted (it ∷ ports) port h = elim (Bool-cases (allows port it)) [
  | inl yes_it ↦
      let (low, high, push, tcp) = allows_lem port it yes_it in
      record { range = it; given = Memᴰ.head refl; low = low; high = high; push = push; tcp = tcp }
  | inr no_it ↦
      let r =
        authorised-Permitted ports port
          (sym (ap (λ b. if b then true else authorised ports port) no_it) ∙ h) in
      record {
        range = r.range;
        given = Memᴰ.tail r.given;
        low = r.low;
        high = r.high;
        push = r.push;
        tcp = r.tcp;
      }
]

Permitted-authorised :
    (ports : List PortSettings) (port : ℕ) (it : PortSettings)
    → Memᴰ it ports
    → allows port it ≡ true
    → authorised ports port ≡ true
unfolding authorised
Permitted-authorised [] port it m h = absurd (Memᴰ.not-nil m)
Permitted-authorised (x ∷ ports) port it m h = elim (Memᴰ.cases_cons m) [
  | inl e ↦ rw (ap (allows port) (sym e) ∙ h) refl
  | inr l ↦ elim (Bool-cases (allows port x)) [
    | inl a ↦ rw a refl
    | inr a ↦ rw a (Permitted-authorised ports port it l h)
  ]
]

on_pipe-request_run :
    (ports : List PortSettings) (port : ℕ)
    → port < 65536
    → on_pipe ports (request port) ≡ (if authorised ports port then some port else none)
unfolding on_pipe request le16
on_pipe-request_run ports port h = rw (read16-le16 port [] h) refl

-- A pipe that the other side asks for with a port is taken for exactly that port, and only if the user
-- has it in a range of TCP ports that may be pushed; if the user has, it is taken.
pub on_pipe-request :
    (ports : List PortSettings) (port : ℕ)
    → port < 65536
    → (on_pipe ports (request port) ≡ some port) ↔ Permitted ports port
on_pipe-request ports port h =
    let run = on_pipe-request_run ports port h in
    (
      λ e. elim (Bool-cases (authorised ports port)) [
        | inl a ↦ authorised-Permitted ports port a
        | inr a ↦ absurd (ground (arith, e, run, a))
      ],
      λ p.
          let ok : allows port p.range ≡ true = ground (arith, p.low, p.high, p.push, p.tcp) in
          let a = Permitted-authorised ports port p.range p.given ok in run ∙ rw a refl,
    )
