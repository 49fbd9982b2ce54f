-- ===== src/Server.antt =====
-- aux/connection.cpp, aux/connection.h and the two event handlers of aux/main.cpp that drive it: a server
-- that keeps a connection for each client. An object of class Connection has an address, and
-- `this` is that address.
pub mod Map
pub mod Accept
pub mod Events
pub mod Registry
pub mod Reachable
pub mod Calls
pub mod Receiving
use rushkit.Base.{
  ℕ, zero, suc, ◌+◌, ◌-◌, ◌%◌, ◌^◌, Bool, true, false, List, [], ◌∷◌, ◌++◌, Option, none, some,
  Bytes, length, take, drop, ltb, leb, ◌==◌, not, if◌then◌else◌,
}
use rushkit.Base.Outcome.{Outcome, ok, fault, assert, ◌>>=◌, ◌>>◌}
use rushkit.Session.{Proto, wrote}
use rushkit.Word.{is_negative_int}
use rushkit.Protocol.{MethodTable, rtmp_proto_method_table_init}
use rushkit.Protocol.Feed.{rtmp_proto_feed, rtmp_proto_feed_data, rtmp_proto_prepare_buffer}
use rushkit.Protocol.Lifetime.{
  rtmp_proto_init, rtmp_proto_free, rtmp_proto_get_user_data, rtmp_proto_set_user_data,
}
use rushkit.Server.Map.{find, put, erase}

abbrev pub conn_st_working : ℕ
conn_st_working = 1000

abbrev pub conn_st_closed : ℕ
conn_st_closed = 1001

-- An object of class Connection; `watched` says whether the event loop knows its event `ev`, and `timed`
-- whether `brev` is a timer, and not NULL.
pub record Connection : Type 0 where
  pub proto : Proto
  pub conn_id : ℕ
  pub fd : ℕ
  pub fc_id : ℕ
  pub conn_st : ℕ
  pub watched : Bool
  pub timed : Bool

-- The static members of Connection, and the objects that there are, by their addresses.
pub record Server : Type 0 where
  pub next_connection_id : ℕ
  pub connection_map : List (ℕ × ℕ)
  pub objects : List (ℕ × Connection)

-- The object that a pointer points to.
abbrev pub object : Server → ℕ → Outcome Connection
object server this = elim (find server.objects this) [ none ↦ fault | some conn ↦ ok conn ]

abbrev pub update : Server → ℕ → Connection → Server
update server this conn = record server { objects = put server.objects this conn }

-- `Connection::get`, with `none` for NULL.
unfoldable pub get : Server → ℕ → Option ℕ
get server conn_id = find server.connection_map conn_id

-- `Connection::writeData`; `write` is the call of the system, with its return value.
unfoldable pub write_data : (ℕ → Bytes → ℕ) → Connection → Bytes → ℕ
write_data write conn src = write conn.fd src

-- `_writeData`; what is written is noted with the connection that it goes through.
unfoldable pub on_write_data : (ℕ → Bytes → ℕ) → Server → Proto → Bytes → Outcome (ℕ × Proto)
unfolding write_data rtmp_proto_get_user_data
on_write_data write server proto src = do
  conn ← object server (rtmp_proto_get_user_data proto)
  ok (write_data write conn src, record proto { events = proto.events ++ (wrote src ∷ []) })

-- The constructor. `blank` is the memory that the new object stands in, and `this` its address.
unfoldable pub new_connection : (ℕ → Bytes) → Server → ℕ → Connection → ℕ → Outcome Server
unfolding rtmp_proto_set_user_data
new_connection alloc server this blank client_fd = do
  let conn_id = server.next_connection_id
  p ← rtmp_proto_init alloc blank.proto
  ok (record server {
    next_connection_id = (conn_id + 1) % 2 ^ 32;
    connection_map = put server.connection_map conn_id this;
    objects = put server.objects this (record blank {
      proto = rtmp_proto_set_user_data p this;
      conn_id = conn_id;
      fd = client_fd;
      fc_id = 1;
      conn_st = conn_st_working;
      timed = false;
    });
  })

-- `Connection::close`: the event is taken from the loop, once. The socket stays open.
unfoldable pub close : Connection → Connection
close conn =
    if conn.conn_st == conn_st_closed
    then conn
    else record conn { watched = false; conn_st = conn_st_closed }

-- The destructor, up to the memory of the object.
unfoldable pub destroy : Connection → Outcome Connection
unfolding close
destroy conn = do
  p ← rtmp_proto_free conn.proto
  ok (close (record conn { proto = p; timed = false }))

-- `delete client`
unfoldable pub delete_connection : Server → ℕ → Outcome Server
unfolding destroy
delete_connection server this = do
  conn ← object server this
  _ ← destroy conn
  ok (record server {
    connection_map = erase server.connection_map conn.conn_id;
    objects = erase server.objects this;
  })

-- What `read` does: it fails, with the return value -1, or gives some bytes, none at the end.
pub data Received : Type 0 where
  failed : Received
  got : Bytes → Received

-- The return value of `read` as an int, and what it puts in the buffer.
abbrev pub returned_length : Received → ℕ
returned_length failed = 2 ^ 32 - 1
returned_length (got bs) = length bs % 2 ^ 32

abbrev pub received_bytes : Received → Bytes
received_bytes failed = []
received_bytes (got bs) = bs

-- An int that is compared to a size_t.
abbrev pub as_size : ℕ → ℕ
as_size len = if is_negative_int len then len + (2 ^ 64 - 2 ^ 32) else len

-- `len > 0` on ints
abbrev pub is_positive : ℕ → Bool
is_positive len = if is_negative_int len then false else ltb 0 len

-- Some bytes put into a buffer at an offset.
abbrev pub write_at : Bytes → ℕ → Bytes → Bytes
write_at buffer offset bs = take offset buffer ++ (bs ++ drop (offset + length bs) buffer)

module _ (small : Bool) (table : MethodTable) (now : ℕ) (to_double from_double : ℕ → ℕ)
    (alloc : ℕ → Bytes) where
  -- `Connection::receiveData` behind the call of `read`, for a room of this size at `offset`.
  unfoldable pub take_in : Proto → ℕ → ℕ → Received → Outcome (ℕ × Proto)
  take_in proto offset capacity received = do
    let len = returned_length received
    let p = record proto {
      read_buffer = write_at proto.read_buffer offset (received_bytes received);
    }
    assert (leb (as_size len) capacity)
    p' ←
        if is_positive len
        then rtmp_proto_feed small table now to_double from_double alloc p len
        else ok p
    ok (len, p')

  -- The part that the protocol sees, with what `read` returns for each size of the room.
  unfoldable pub receive_into : (ℕ → Received) → Proto → Outcome (ℕ × Proto)
  unfolding take_in
  receive_into read proto =
      let (offset, capacity, p) = rtmp_proto_prepare_buffer proto in
      take_in p offset capacity (read capacity)

  unfoldable pub receive_data : (ℕ → Received) → Connection → Outcome (ℕ × Connection)
  unfolding receive_into
  receive_data read conn = do
    (len, p) ← receive_into read conn.proto
    ok (len, record conn { proto = p })

  -- `Connection::onData`
  unfoldable pub on_data : Connection → Bytes → Outcome Connection
  on_data conn src = do
    p ← rtmp_proto_feed_data small table now to_double from_double alloc conn.proto src
    ok (record conn { proto = p })

  -- `on_rtmp_read`: the socket of the connection at `this` can be read.
  unfoldable pub on_rtmp_read : (ℕ → Received) → Server → ℕ → Outcome Server
  unfolding receive_data
  on_rtmp_read read server this = do
    conn ← object server this
    (len, conn') ← receive_data read conn
    let server' = update server this conn'
    if is_positive len then ok server' else delete_connection server' this

-- `on_accept`: `accept` gives a descriptor, or fails; the new object is watched from then on.
unfoldable pub on_accept : (ℕ → Bytes) → Server → Option ℕ → ℕ → Connection → Outcome Server
on_accept alloc server none this blank = ok server
on_accept alloc server (some client_fd) this blank = do
  server' ← new_connection alloc server this blank client_fd
  conn ← object server' this
  ok (update server' this (record conn { watched = true }))
