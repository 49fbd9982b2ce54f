-- ===== src/Server/Accept.antt =====
-- aux/connection.cpp and aux/main.cpp: a connection that the server takes in.
use rushkit.Base.{ℕ, ◌+◌, ◌%◌, ◌^◌, ◌≡◌, refl, ap, ◌∙◌, true, false, List, ◌∷◌, some, Bytes, arith}
use rushkit.Base.Outcome.{ok, ◌>>=◌}
use rushkit.Session.{Proto}
use rushkit.Protocol.Lifetime.{
  IsInitial, rtmp_proto_init, rtmp_proto_set_user_data, rtmp_proto_init-IsInitial,
}
use rushkit.Server.Map.{put, erase, find-here}
use rushkit.Server.{
  Connection, Server, conn_st_working, object, update, get, new_connection, on_accept,
}

-- The connection that the constructor makes.
abbrev pub fresh : Server → Connection → ℕ → Proto → Connection
fresh server blank client_fd p = record blank {
  proto = p;
  conn_id = server.next_connection_id;
  fd = client_fd;
  fc_id = 1;
  conn_st = conn_st_working;
  timed = false;
}

-- A server that has taken a connection in.
abbrev pub accepted : Server → ℕ → Connection → Server
accepted server this conn = record server {
  next_connection_id = (server.next_connection_id + 1) % 2 ^ 32;
  connection_map = put server.connection_map server.next_connection_id this;
  objects = put (put server.objects this conn) this (record conn { watched = true });
}

-- Where the constructor ends.
abbrev pub created : Server → ℕ → Connection → Server
created server this conn = record server {
  next_connection_id = (server.next_connection_id + 1) % 2 ^ 32;
  connection_map = put server.connection_map server.next_connection_id this;
  objects = put server.objects this conn;
}

pub object-here :
    (server : Server) (xs : List (ℕ × Connection)) (this : ℕ) (conn : Connection)
    → server.objects ≡ (this, conn) ∷ xs
    → object server this ≡ ok conn
object-here server xs this conn e = rw e (ground arith)

pub new_connection_lem :
    (alloc : ℕ → Bytes) (server : Server) (this : ℕ) (blank : Connection) (client_fd : ℕ)
    (p : Proto)
    → rtmp_proto_init alloc blank.proto ≡ ok p
    → new_connection alloc server this blank client_fd
      ≡ ok (created server this (fresh server blank client_fd (rtmp_proto_set_user_data p this)))
unfolding new_connection
new_connection_lem alloc server this blank client_fd p e = rw e refl

-- Whatever the memory of the new object holds, a descriptor from `accept` is taken in: the server has
-- a watched connection with the next number and the new descriptor, whose protocol is as
-- `rtmp_proto_init` leaves it except that it points back to the object, and `get` of its number finds
-- it.
pub on_accept_lem :
    (alloc : ℕ → Bytes) (server : Server) (client_fd this : ℕ) (blank : Connection)
    → (p : Proto) × IsInitial blank.proto p
      × (on_accept alloc server (some client_fd) this blank
          ≡ ok (
              accepted server this
                (fresh server blank client_fd (rtmp_proto_set_user_data p this))))
      × (get
            (accepted server this (fresh server blank client_fd (rtmp_proto_set_user_data p this)))
            server.next_connection_id
          ≡ some this)
unfolding on_accept get
on_accept_lem alloc server client_fd this blank =
    let (p, e, initial) = rtmp_proto_init-IsInitial alloc blank.proto in
    let conn = fresh server blank client_fd (rtmp_proto_set_user_data p this) in
    (
      p,
      initial,
      ap
            (λ o.
              o
              >>= (λ s. object s this >>= (λ c. ok (update s this (record c { watched = true })))))
            (new_connection_lem alloc server this blank client_fd p e)
          ∙ ap
              (λ o. o >>= (λ c.
                ok (update (created server this conn) this (record c { watched = true }))))
              (object-here (created server this conn) (erase server.objects this) this conn refl),
      find-here (erase server.connection_map server.next_connection_id) server.next_connection_id
          this,
    )
