-- ===== src/Server/Events.antt =====
-- aux/connection.cpp and aux/main.cpp: what the handlers of the server do to its connections.
use rushkit.Base.{
  ℕ, ◌^◌, ◌≡◌, ◌≢◌, ◌<◌, ◌⊎◌, inl, inr, refl, [], sym, ap, ◌∙◌, Bool, false, none, some, Bytes,
  arith, ltb, Bool-cases, if-true, if-false, if◌then◌else◌,
}
use rushkit.Base.Outcome.{Outcome, ok, abort, fault, ◌>>=◌, bind-ok, bind_assoc, ok-injective}
use rushkit.Session.{Proto}
use rushkit.Protocol.{MethodTable}
use rushkit.Protocol.Feed.{rtmp_proto_prepare_buffer, put_last_data}
use rushkit.Protocol.Lifetime.{all_live, freed, rtmp_proto_free_lem}
use rushkit.Server.Accept.{object-here}
use rushkit.Server.Map.{find, put, erase, find-there, find-erase, find-erase_other}
use rushkit.Server.{
  Connection, Server, Received, failed, got, is_positive, write_at, object, update, get, close,
  destroy, delete_connection, take_in, receive_into, receive_data, on_rtmp_read,
}

pub object-found :
    (server : Server) (this : ℕ) (conn : Connection)
    → find server.objects this ≡ some conn
    → object server this ≡ ok conn
object-found server this conn e = ap (λ o. elim o [ none ↦ fault | some c ↦ ok c ]) e

-- What `delete` leaves of the server.
abbrev pub removed : Server → ℕ → ℕ → Server
removed server this conn_id = record server {
  connection_map = erase server.connection_map conn_id;
  objects = erase server.objects this;
}

-- What `on_rtmp_read` does with the connection behind the read.
abbrev pub after : ℕ → Server → ℕ → Connection → Outcome Server
after len server this conn =
    let server' = update server this conn in
    if is_positive len then ok server' else delete_connection server' this

delete_connection-update :
    (server : Server) (this : ℕ) (conn : Connection)
    → delete_connection (update server this conn) this
      ≡ (destroy conn >>= (λ _. ok (removed (update server this conn) this conn.conn_id)))
unfolding delete_connection
delete_connection-update server this conn =
    let s = update server this conn in
    ap (λ o. o >>= (λ c. destroy c >>= (λ _. ok (removed s this c.conn_id))))
      (object-here s (erase server.objects this) this conn refl)

delete_connection-ok :
    (server server' : Server) (this : ℕ) (conn : Connection)
    → delete_connection (update server this conn) this ≡ ok server'
    → server' ≡ removed (update server this conn) this conn.conn_id
delete_connection-ok server server' this conn e =
    let r = removed (update server this conn) this conn.conn_id in
    let (_, _, done) =
      bind-ok (destroy conn) (λ _. ok r) server'
        (sym (delete_connection-update server this conn) ∙ e) in
    sym (ok-injective done)

after-ok :
    (len : ℕ) (server server' : Server) (this : ℕ) (conn : Connection)
    → after len server this conn ≡ ok server'
    → (server' ≡ update server this conn)
      ⊎ (server' ≡ removed (update server this conn) this conn.conn_id)
after-ok len server server' this conn e = elim (Bool-cases (is_positive len)) [
  | inl on ↦ inl (sym (ok-injective (sym (if-true _ _ _ on) ∙ e)))
  | inr off ↦ inr (delete_connection-ok server server' this conn (sym (if-false _ _ _ off) ∙ e))
]

prepare_buffer_keeps : (proto : Proto) → (rtmp_proto_prepare_buffer proto).2.memory ≡ proto.memory
unfolding rtmp_proto_prepare_buffer put_last_data
prepare_buffer_keeps proto = elim (Bool-cases (ltb 0 proto.last_data_length)) [
  | inl kept ↦ rw kept refl
  | inr nothing ↦ rw nothing refl
]

room_bounded : (proto : Proto) → (rtmp_proto_prepare_buffer proto).1 < 2 ^ 63
unfolding rtmp_proto_prepare_buffer put_last_data
room_bounded proto = omega arith

-- The destructor, of an object whose protocol still has its blocks.
abbrev destroyed : Connection → Connection
destroyed conn = close (record conn { proto = freed conn.proto; timed = false })

destroy_lem :
    (conn : Connection) → conn.proto.memory ≡ all_live → destroy conn ≡ ok (destroyed conn)
unfolding destroy
destroy_lem conn h = rw (rtmp_proto_free_lem conn.proto h) refl

module _ (small : Bool) (table : MethodTable) (now : ℕ) (to_double from_double : ℕ → ℕ)
    (alloc : ℕ → Bytes) (proto : Proto) where
  take_in_failed :
      (offset room : ℕ)
      → room < 2 ^ 63
      → take_in small table now to_double from_double alloc proto offset room failed ≡ abort
  unfolding take_in
  take_in_failed offset room h = ground arith

  take_in_at_end :
      (offset room : ℕ)
      → take_in small table now to_double from_double alloc proto offset room (got [])
        ≡ ok (0, record proto { read_buffer = write_at proto.read_buffer offset [] })
  unfolding take_in
  take_in_at_end offset room = ground arith

module _ (small : Bool) (table : MethodTable) (now : ℕ) (to_double from_double : ℕ → ℕ)
    (alloc : ℕ → Bytes) (read : ℕ → Received) (proto : Proto) where
  receive_into_failed :
      ((room : ℕ) → read room ≡ failed)
      → receive_into small table now to_double from_double alloc read proto ≡ abort
  unfolding receive_into
  receive_into_failed fails =
      let (offset, room, p) = rtmp_proto_prepare_buffer proto in
      ap (take_in small table now to_double from_double alloc p offset room) (fails room)
      ∙ take_in_failed small table now to_double from_double alloc p offset room
          (room_bounded proto)

  receive_into_at_end :
      ((room : ℕ) → read room ≡ got [])
      → proto.memory ≡ all_live
      → (p : Proto) × (receive_into small table now to_double from_double alloc read proto
          ≡ ok (0, p))
        × (p.memory ≡ all_live)
  unfolding receive_into
  receive_into_at_end ends held =
      let (offset, room, p) = rtmp_proto_prepare_buffer proto in
      (
        record p { read_buffer = write_at p.read_buffer offset [] },
        ap (take_in small table now to_double from_double alloc p offset room) (ends room)
            ∙ take_in_at_end small table now to_double from_double alloc p offset room,
        prepare_buffer_keeps proto ∙ held,
      )

module _ (small : Bool) (table : MethodTable) (now : ℕ) (to_double from_double : ℕ → ℕ)
    (alloc : ℕ → Bytes) (read : ℕ → Received) (server : Server) (this : ℕ) (conn : Connection)
    (there : find server.objects this ≡ some conn) where
  pub on_rtmp_read-receive_into :
      on_rtmp_read small table now to_double from_double alloc read server this ≡ (
        receive_into small table now to_double from_double alloc read conn.proto
        >>= (λ (len, p). after len server this (record conn { proto = p })))
  unfolding on_rtmp_read receive_data
  on_rtmp_read-receive_into =
      ap
        (λ o. o >>= (λ c.
          (receive_into small table now to_double from_double alloc read c.proto
            >>= (λ (len, p). ok (len, record c { proto = p })))
          >>= (λ (len, c'). after len server this c')))
        (object-found server this conn there)
      ∙ bind_assoc (receive_into small table now to_double from_double alloc read conn.proto)
          (λ (len, p). ok (len, record conn { proto = p })) (λ (len, c'). after len server this c')

  -- A handler that returns leaves its connection with the same number, or has deleted it; the rest of
  -- the server is as before.
  pub on_rtmp_read_cases :
      (server' : Server)
      → on_rtmp_read small table now to_double from_double alloc read server this ≡ ok server'
      → (conn' : Connection) × (conn'.conn_id ≡ conn.conn_id)
        × ((server' ≡ update server this conn')
            ⊎ (server' ≡ removed (update server this conn') this conn.conn_id))
  on_rtmp_read_cases server' e =
      let ((len, p), _, e') =
        bind-ok (receive_into small table now to_double from_double alloc read conn.proto)
          (λ (len, p). after len server this (record conn { proto = p })) server'
          (sym on_rtmp_read-receive_into ∙ e) in
      (
        record conn { proto = p },
        refl,
        after-ok len server server' this (record conn { proto = p }) e',
      )

  -- A failure of `read` stops the program, with all its connections: the length -1 is compared to the
  -- room as a size_t, in an assert.
  pub on_rtmp_read_failed :
      ((room : ℕ) → read room ≡ failed)
      → on_rtmp_read small table now to_double from_double alloc read server this ≡ abort
  on_rtmp_read_failed fails =
      on_rtmp_read-receive_into
      ∙ ap (λ o. o >>= (λ (len, p). after len server this (record conn { proto = p })))
          (receive_into_failed small table now to_double from_double alloc read conn.proto fails)

  -- At the end of a client's input the connection is deleted: neither its number nor its address is found any
  -- more, and every other number and every other object is found as before.
  pub on_rtmp_read_at_end :
      ((room : ℕ) → read room ≡ got [])
      → conn.proto.memory ≡ all_live
      → (server' : Server) × (on_rtmp_read small table now to_double from_double alloc read server
            this
          ≡ ok server')
        × (get server' conn.conn_id ≡ none)
        × (find server'.objects this ≡ none)
        × ((id : ℕ) → id ≢ conn.conn_id → get server' id ≡ get server id)
        × ((that : ℕ) → that ≢ this → find server'.objects that ≡ find server.objects that)
  unfolding get
  on_rtmp_read_at_end ends held =
      let (p, e, held') =
        receive_into_at_end small table now to_double from_double alloc read conn.proto ends held in
      let conn' = record conn { proto = p } in
      let objects' = put server.objects this conn' in
      (
        removed (update server this conn') this conn.conn_id,
        on_rtmp_read-receive_into
            ∙ ap (λ o. o >>= (λ (len, p). after len server this (record conn { proto = p }))) e
            ∙ delete_connection-update server this conn'
            ∙ ap (λ o. o >>= (λ _. ok (removed (update server this conn') this conn.conn_id)))
                (destroy_lem conn' held'),
        find-erase server.connection_map conn.conn_id,
        find-erase objects' this,
        λ id h. find-erase_other server.connection_map id conn.conn_id h,
        λ that h.
            find-erase_other objects' that this h
            ∙ find-there (erase server.objects this) that this conn' h
            ∙ find-erase_other server.objects that this h,
      )
