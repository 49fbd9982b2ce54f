-- ===== src/Server/Reachable.antt =====
-- aux/main.cpp: the event loop as a sequence of handlers that return.
use rushkit.Base.{
  ℕ, ◌-◌, ◌^◌, ◌<◌, ◌≡◌, ◌≢◌, ◌↔◌, inl, inr, refl, sym, ap, ◌∙◌, Bool, Option, none, some, Bytes,
}
use mathlib.Core.Path.{subst}
use rushkit.Base.Outcome.{ok, ok-injective}
use rushkit.Protocol.{MethodTable}
use rushkit.Protocol.Lifetime.{rtmp_proto_set_user_data}
use rushkit.Server.{Connection, Server, Received, get, on_rtmp_read, on_accept, update}
use rushkit.Server.Map.{find, put, find-put, find-put_other, find-erase_other}
use rushkit.Server.Accept.{fresh, on_accept_lem}
use rushkit.Server.Events.{removed, on_rtmp_read_cases}
use rushkit.Server.Registry.{
  IsValid, no_connections, no_connections-IsValid, replaced-IsValid, removed-IsValid,
  accepted-IsValid,
}

-- An event: a client asks to be let in, where `new` gives an address that no object has and the numbers do not
-- overflow an int, or the socket of an object can be read. The callbacks and the clock may differ from event to event.
pub data Step (s s' : Server) : Type 0 where
  accepts :
      (alloc : ℕ → Bytes) (client_fd : Option ℕ) (this : ℕ) (blank : Connection)
      → find s.objects this ≡ none
      → s.next_connection_id < 2 ^ 31 - 1
      → on_accept alloc s client_fd this blank ≡ ok s'
      → Step s s'
  reads :
      (small : Bool) (table : MethodTable) (now : ℕ) (to_double from_double : ℕ → ℕ)
      (alloc : ℕ → Bytes) (read : ℕ → Received) (this : ℕ) (conn : Connection)
      → find s.objects this ≡ some conn
      → on_rtmp_read small table now to_double from_double alloc read s this ≡ ok s'
      → Step s s'

-- The servers that a program may have.
pub data Reachable : Server → Type 0 where
  started : Reachable no_connections
  stepped : {s s' : Server} → Reachable s → Step s s' → Reachable s'

pub Step-IsValid : (s s' : Server) → Step s s' → IsValid s → IsValid s'
unfolding on_accept
Step-IsValid s s' (accepts alloc none this blank free few e) v = subst IsValid (ok-injective e) v
Step-IsValid s s' (accepts alloc (some client_fd) this blank free few e) v =
    let (p, _, e', _) = on_accept_lem alloc s client_fd this blank in
    let conn = fresh s blank client_fd (rtmp_proto_set_user_data p this) in
    subst IsValid (ok-injective (sym e' ∙ e)) (accepted-IsValid s this conn v free refl few)
Step-IsValid s s' (reads small table now to_double from_double alloc read this conn there e) v =
    let (conn', same, cases) =
      on_rtmp_read_cases small table now to_double from_double alloc read s this conn there s' e in
    let kept = replaced-IsValid s this conn conn' v there same in
    elim cases [
      | inl stays ↦ subst IsValid (sym stays) kept
      | inr gone ↦ subst IsValid (sym gone) (
          subst (λ n. IsValid (removed (update s this conn') this n)) same
            (removed-IsValid (update s this conn') this conn' kept (find-put s.objects this conn')))
    ]

Reachable-IsValid : (s : Server) → Reachable s → IsValid s
Reachable-IsValid _ started = no_connections-IsValid
Reachable-IsValid _ (stepped {s} {s'} before step) =
    Step-IsValid s s' step (Reachable-IsValid s before)

-- In every server that can be reached, `get` finds the address of exactly the connection that has the number: the
-- objects that live have different numbers, and each can be found by its own.
pub get-Reachable :
    (s : Server)
    → Reachable s
    → (id this : ℕ)
    → (get s id ≡ some this)
      ↔ ((conn : Connection) × (find s.objects this ≡ some conn) × (conn.conn_id ≡ id))
get-Reachable s r id this =
    let v = Reachable-IsValid s r in
    (
      v.points id this,
      λ (conn, there, number). ap (get s) (sym number) ∙ v.registered this conn there,
    )

-- A handler that has read from one connection and returns has not touched another: each other object is
-- what it was, and each other number is found at the same address.
pub on_rtmp_read_others :
    (small : Bool) (table : MethodTable) (now : ℕ) (to_double from_double : ℕ → ℕ)
    (alloc : ℕ → Bytes) (read : ℕ → Received) (s s' : Server) (this : ℕ) (conn : Connection)
    → find s.objects this ≡ some conn
    → on_rtmp_read small table now to_double from_double alloc read s this ≡ ok s'
    → ((that : ℕ) → that ≢ this → find s'.objects that ≡ find s.objects that)
      × ((id : ℕ) → id ≢ conn.conn_id → get s' id ≡ get s id)
unfolding get
on_rtmp_read_others small table now to_double from_double alloc read s s' this conn there e =
    let (conn', _, cases) =
      on_rtmp_read_cases small table now to_double from_double alloc read s this conn there s' e in
    elim cases [
      | inl stays ↦ (
        λ that h. ap (λ r. find r.objects that) stays ∙ find-put_other s.objects that this conn' h,
        λ id h. ap (λ r. find r.connection_map id) stays,
      )
      | inr gone ↦ (
        λ that h.
            ap (λ r. find r.objects that) gone
            ∙ find-erase_other (put s.objects this conn') that this h
            ∙ find-put_other s.objects that this conn' h,
        λ id h.
            ap (λ r. find r.connection_map id) gone
            ∙ find-erase_other s.connection_map id conn.conn_id h,
      )
    ]
