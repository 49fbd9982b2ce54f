-- ===== src/Server/Registry.antt =====
-- aux/connection.cpp: the connections that a server has, over any sequence of events.
use rushkit.Base.{ℕ, ◌-◌, ◌^◌, ◌<◌, ◌≡◌, ◌≢◌, inl, inr, sym, ap, ◌∙◌, true, [], none, some, arith}
use rushkit.Server.{Connection, Server, get, update}
use rushkit.Server.Map.{
  find, put, find-put, find-put_other, find-erase_found, find-erase_other, eq_or_ne, some-injective,
}
use rushkit.Server.Accept.{accepted}
use rushkit.Server.Events.{removed}

-- The map and the objects agree: a number stands for the object that has it, each object is in the map under its number, and
-- the next number is free.
pub record IsValid (s : Server) : Type 0 where
  pub below : (id this : ℕ) → get s id ≡ some this → id < s.next_connection_id
  pub points :
      (id this : ℕ)
      → get s id ≡ some this
      → (conn : Connection) × (find s.objects this ≡ some conn) × (conn.conn_id ≡ id)
  pub registered :
      (this : ℕ) (conn : Connection)
      → find s.objects this ≡ some conn
      → get s conn.conn_id ≡ some this

-- The server that a program starts with.
abbrev pub no_connections : Server
no_connections = record { next_connection_id = 1; connection_map = []; objects = [] }

pub no_connections-IsValid : IsValid no_connections
unfolding get
no_connections-IsValid = record {
  below = λ id this e. absurd (cc);
  points = λ id this e. absurd (cc);
  registered = λ this conn e. absurd (cc);
}

module _ (s : Server) (this : ℕ) (conn conn' : Connection) (v : IsValid s)
    (there : find s.objects this ≡ some conn) (same : conn'.conn_id ≡ conn.conn_id) where
  points_replaced :
      (id a : ℕ)
      → get s id ≡ some a
      → (c : Connection) × (find (put s.objects this conn') a ≡ some c) × (c.conn_id ≡ id)
  points_replaced id a e =
      let (c, f, n) = v.points id a e in
      elim (eq_or_ne a this) [
        | inl here ↦
            let known : c ≡ conn = some-injective (sym f ∙ ap (find s.objects) here ∙ there) in
            (
              conn',
              ap (find (put s.objects this conn')) here ∙ find-put s.objects this conn',
              same ∙ sym (ap (λ d. d.conn_id) known) ∙ n,
            )
        | inr elsewhere ↦ (c, find-put_other s.objects a this conn' elsewhere ∙ f, n)
      ]

  registered_replaced :
      (a : ℕ) (c : Connection)
      → find (put s.objects this conn') a ≡ some c
      → get s c.conn_id ≡ some a
  registered_replaced a c e = elim (eq_or_ne a this) [
    | inl here ↦
        let known : conn' ≡ c = some-injective (
          sym (find-put s.objects this conn')
          ∙ sym (ap (find (put s.objects this conn')) here)
          ∙ e) in
        ap (get s) (sym (ap (λ d. d.conn_id) known) ∙ same)
        ∙ v.registered this conn there
        ∙ ap some (sym here)
    | inr elsewhere ↦ v.registered a c (sym (find-put_other s.objects a this conn' elsewhere) ∙ e)
  ]

-- A connection that stays where it is, with its number.
pub replaced-IsValid :
    (s : Server) (this : ℕ) (conn conn' : Connection)
    → IsValid s
    → find s.objects this ≡ some conn
    → conn'.conn_id ≡ conn.conn_id
    → IsValid (update s this conn')
unfolding get
replaced-IsValid s this conn conn' v there same = record {
  below = v.below;
  points = points_replaced s this conn conn' v there same;
  registered = registered_replaced s this conn conn' v there same;
}

-- A connection that is deleted.
pub removed-IsValid :
    (s : Server) (this : ℕ) (conn : Connection)
    → IsValid s
    → find s.objects this ≡ some conn
    → IsValid (removed s this conn.conn_id)
unfolding get
removed-IsValid s this conn v there = record {
  below = λ id a e. v.below id a (find-erase_found s.connection_map id conn.conn_id a e).1;
  points = λ id a e.
      let (other, e') = find-erase_found s.connection_map id conn.conn_id a e in
      let (c, f, n) = v.points id a e' in
      let elsewhere : a ≢ this = λ here.
        let known : c ≡ conn = some-injective (sym f ∙ ap (find s.objects) here ∙ there) in
        other (sym n ∙ ap (λ d. d.conn_id) known) in
      (c, find-erase_other s.objects a this elsewhere ∙ f, n);
  registered = λ a c e.
      let (elsewhere, e') = find-erase_found s.objects a this c e in
      let g = v.registered a c e' in
      let other : c.conn_id ≢ conn.conn_id = λ same.
        elsewhere (some-injective (sym g ∙ ap (get s) same ∙ v.registered this conn there)) in
      find-erase_other s.connection_map c.conn_id conn.conn_id other ∙ g;
}

-- A connection that is taken in.
module _ (s : Server) (this : ℕ) (conn : Connection) (v : IsValid s)
    (free : find s.objects this ≡ none) (numbered : conn.conn_id ≡ s.next_connection_id)
    (few : s.next_connection_id < 2 ^ 31 - 1) where
  abbrev watching : Connection
  watching = record conn { watched = true }

  accepted_elsewhere : (a : ℕ) → a ≢ this → find (accepted s this conn).objects a ≡ find s.objects a
  accepted_elsewhere a h =
      find-put_other (put s.objects this conn) a this watching h
      ∙ find-put_other s.objects a this conn h

  pub accepted-IsValid : IsValid (accepted s this conn)
  unfolding get
  accepted-IsValid = record {
    below = λ id a e. elim (eq_or_ne id s.next_connection_id) [
      | inl new ↦ omega (arith, new, few)
      | inr old ↦
          let lower =
            v.below id a
              (sym (find-put_other s.connection_map id s.next_connection_id this old) ∙ e) in
          omega (arith, lower, few)
    ];
    points = λ id a e. elim (eq_or_ne id s.next_connection_id) [
      | inl new ↦
          let here : this ≡ a = some-injective (
            sym (find-put s.connection_map s.next_connection_id this)
            ∙ sym (ap (get (accepted s this conn)) new)
            ∙ e) in
          (
            watching,
            ap (find (accepted s this conn).objects) (sym here)
                ∙ find-put (put s.objects this conn) this watching,
            numbered ∙ sym new,
          )
      | inr old ↦
          let (c, f, n) =
            v.points id a
              (sym (find-put_other s.connection_map id s.next_connection_id this old) ∙ e) in
          let elsewhere : a ≢ this =
            λ here. let gone : find s.objects a ≡ none = ap (find s.objects) here ∙ free in cc in
          (c, accepted_elsewhere a elsewhere ∙ f, n)
    ];
    registered = λ a c e. elim (eq_or_ne a this) [
      | inl here ↦
          let known : watching ≡ c = some-injective (
            sym (find-put (put s.objects this conn) this watching)
            ∙ sym (ap (find (accepted s this conn).objects) here)
            ∙ e) in
          ap (get (accepted s this conn)) (sym (ap (λ d. d.conn_id) known) ∙ numbered)
          ∙ find-put s.connection_map s.next_connection_id this
          ∙ ap some (sym here)
      | inr elsewhere ↦
          let g = v.registered a c (sym (accepted_elsewhere a elsewhere) ∙ e) in
          let old : c.conn_id ≢ s.next_connection_id =
            λ new. let lower = v.below c.conn_id a g in omega (arith, lower, new) in
          find-put_other s.connection_map c.conn_id s.next_connection_id this old ∙ g
    ];
  }
