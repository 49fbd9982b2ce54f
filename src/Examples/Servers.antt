-- ===== src/Examples/Servers.antt =====
-- aux/connection.cpp and aux/main.cpp: events on a server with one connection.
use mathlib.Core.List.{map}
use rushkit.Base.{
  ℕ, ◌≡◌, ◌≢◌, ◌↔◌, ◌<◌, ◌≤◌, refl, true, false, List, [], ◌∷◌, ◌++◌, none, some, All, Bytes, arith,
  length, take, ◌^◌, lengths,
}
use rushkit.Base.Outcome.{ok, abort, fault, ◌>>=◌}
use rushkit.Amf.{Value, string, number, plain, amf_nil}
use rushkit.Amf.Valid.{IsValid}
use rushkit.Amf.Encode.{pack_values}
use rushkit.Amf.Encode.Size.{byte_count, byte_count_lem, amf_pack_call_lem}
use rushkit.Session.{Packet, Proto, wrote, replicate}
use rushkit.Protocol.{MethodTable, rtmp_proto_method_table_init}
use rushkit.Protocol.Feed.{rtmp_proto_feed, rtmp_proto_prepare_buffer, put_last_data}
use rushkit.Protocol.Handlers.{default_on_packet_invoke}
use rushkit.Protocol.Lifetime.{
  all_dangling, rtmp_proto_free, rtmp_proto_get_user_data, rtmp_proto_set_user_data,
  rtmp_proto_free_twice,
}
use rushkit.Word.{little_endian}
use rushkit.Packet.Wire.{join, new_packet}
use rushkit.Protocol.InOrder.{noting, payload_of, stream_of, IsReady}
use rushkit.Server.{
  Connection, Server, failed, got, get, update, destroy, delete_connection, receive_data, take_in,
  receive_into, on_rtmp_read,
}
use rushkit.Server.Map.{find}
use rushkit.Server.Accept.{fresh, accepted, on_accept_lem}
use rushkit.Server.Events.{on_rtmp_read_failed, on_rtmp_read_at_end}
use rushkit.Server.Registry.{no_connections}
use rushkit.Server.Reachable.{
  Reachable, accepts, started, stepped, get-Reachable, on_rtmp_read_others,
}
use rushkit.Server.Calls.{add_name, init_method_table, default_on_packet_invoke_wrong_count}
use rushkit.Server.Receiving.{filled, receive_into_lem, on_rtmp_read-stream_of}
use rushkit.Examples.Packets.{proto}
use rushkit.Examples.Streams.{packets, packets-IsReadable, shaken, shaken-IsReady}

-- The conversions of numbers and the memory that is handed out do not matter in these runs.
abbrev same : ℕ → ℕ
same n = n

abbrev zeros : ℕ → Bytes
zeros n = replicate n 0

abbrev table : MethodTable
table = rtmp_proto_method_table_init

-- A connection of the number 1 at the address 7, and one of the number 2 at the address 8.
abbrev conn : Connection
conn = record {
  proto = shaken;
  conn_id = 1;
  fd = 4;
  fc_id = 1;
  conn_st = 1000;
  watched = true;
  timed = false;
}

abbrev other : Connection
other = record conn { conn_id = 2; fd = 5 }

abbrev server : Server
server = record {
  next_connection_id = 3;
  connection_map = (1, 7) ∷ (2, 8) ∷ [];
  objects = (7, conn) ∷ (8, other) ∷ [];
}

rtmp_proto_free_twice_example :
    (p : Proto) × (rtmp_proto_free proto ≡ ok p)
    × (p.memory ≡ all_dangling)
    × (rtmp_proto_get_user_data p ≡ 0)
    × (p.pool ≡ proto.pool)
    × (p.tmp_buf ≡ proto.tmp_buf)
    × (p.data_buffer ≡ proto.data_buffer)
    × (rtmp_proto_free p ≡ fault)
rtmp_proto_free_twice_example = rtmp_proto_free_twice proto refl

on_rtmp_read_failed_example :
    on_rtmp_read true table 0 same same zeros (λ n. failed) server 7 ≡ abort
on_rtmp_read_failed_example =
    on_rtmp_read_failed true table 0 same same zeros (λ n. failed) server 7 conn refl (λ n. refl)

on_rtmp_read_at_end_example :
    (server' : Server) × (on_rtmp_read true table 0 same same zeros (λ n. got []) server 7
      ≡ ok server')
    × (get server' 1 ≡ none)
    × (find server'.objects 7 ≡ none)
    × ((id : ℕ) → id ≢ 1 → get server' id ≡ get server id)
    × ((that : ℕ) → that ≢ 7 → find server'.objects that ≡ find server.objects that)
on_rtmp_read_at_end_example =
    on_rtmp_read_at_end true table 0 same same zeros (λ n. got []) server 7 conn refl (λ n. refl)
      refl

-- The server after the end of the first client's input.
abbrev left_over : Server
left_over = record {
  next_connection_id = 3;
  connection_map = (2, 8) ∷ [];
  objects = (8, other) ∷ [];
}

at_end_run : on_rtmp_read true table 0 same same zeros (λ n. got []) server 7 ≡ ok left_over
unfolding on_rtmp_read rtmp_proto_prepare_buffer put_last_data receive_data take_in
    delete_connection destroy rtmp_proto_free
at_end_run = refl

on_rtmp_read_others_example :
    ((that : ℕ) → that ≢ 7 → find left_over.objects that ≡ find server.objects that)
    × ((id : ℕ) → id ≢ 1 → get left_over id ≡ get server id)
on_rtmp_read_others_example =
    on_rtmp_read_others true table 0 same same zeros (λ n. got []) server left_over 7 conn refl
      at_end_run

stream_some : 0 < length (stream_of 3 packets)
unfolding stream_of new_packet join little_endian
stream_some = omega arith

stream_fits : length (stream_of 3 packets) ≤ 8192
unfolding stream_of new_packet join little_endian
stream_fits = omega arith

on_rtmp_read-stream_of_example :
    (p : Proto) × (on_rtmp_read true
        (noting table)
        0
        same
        same
        zeros
        (λ n. got (stream_of 3 packets))
        server
        7
      ≡ ok (update server 7 (record conn { proto = p })))
    × (p.events ≡ shaken.events ++ map (λ i. wrote (payload_of i)) packets)
    × IsReady 2 3 p
on_rtmp_read-stream_of_example =
    on_rtmp_read-stream_of true table 0 same same zeros (λ n. got (stream_of 3 packets)) server 7
      conn 2 3 packets refl (omega arith) (omega arith) shaken-IsReady packets-IsReadable refl refl
      stream_some stream_fits

-- The server that has taken its first client in.
abbrev first_server : Server
first_server = accepted no_connections 9 (
    fresh no_connections conn 6
      (rtmp_proto_set_user_data (on_accept_lem zeros no_connections 6 9 conn).0 9))

first_server-Reachable : Reachable first_server
first_server-Reachable = stepped started (
    accepts zeros (some 6) 9 conn refl (omega arith)
      (on_accept_lem zeros no_connections 6 9 conn).2)

get-Reachable_example :
    (get first_server 1 ≡ some 9)
    ↔ ((c : Connection) × (find first_server.objects 9 ≡ some c) × (c.conn_id ≡ 1))
get-Reachable_example = get-Reachable first_server first_server-Reachable 1 9

-- A connection that has kept two bytes.
abbrev keeping : Proto
keeping = record proto { last_data_length = 2; last_data = 1 ∷ 2 ∷ 3 ∷ [] }

receive_into_lem_example :
    (receive_into true table 0 same same zeros (λ n. got (4 ∷ 5 ∷ 6 ∷ [])) keeping ≡ (
      rtmp_proto_feed true table 0 same same zeros (filled keeping (4 ∷ 5 ∷ 6 ∷ [])) 3
      >>= (λ p. ok (3, p))))
    × (take 3 (filled keeping (4 ∷ 5 ∷ 6 ∷ [])).read_buffer
        ≡ take 3 ((1 ∷ 2 ∷ []) ++ (4 ∷ 5 ∷ 6 ∷ [])))
receive_into_lem_example =
    receive_into_lem true table 0 same same zeros (λ n. got (4 ∷ 5 ∷ 6 ∷ [])) keeping
      (4 ∷ 5 ∷ 6 ∷ []) (omega arith) refl (omega arith) (omega arith)

-- A call of "add" with one argument.
abbrev one_number : List Value
one_number = number 5 ∷ []

abbrev lone_add : Packet
lone_add = record {
  channel_id = 3;
  channel = record { used = 1; timer = 0; size = 0; data_type = 20; stream_id = 0 };
  payload = pack_values true (string add_name ∷ number 2 ∷ plain amf_nil ∷ one_number);
}

one_number-IsValid : All IsValid one_number
unfolding IsValid
one_number-IsValid = ground arith

lone_add_short :
    length (pack_values true (string add_name ∷ number 2 ∷ plain amf_nil ∷ one_number)) < 2 ^ 31
unfolding pack_values byte_count
lone_add_short = omega (
  lengths,
  byte_count_lem true (string add_name),
  byte_count_lem true (number 2),
  byte_count_lem true (plain amf_nil),
  byte_count_lem true (number 5),
)

default_on_packet_invoke_wrong_count_example :
    default_on_packet_invoke true
      (init_method_table true same 0 (λ v. 0) (λ x y. x) (λ fd bs. 0) server)
      0
      same
      same
      proto
      lone_add
    ≡ abort
default_on_packet_invoke_wrong_count_example =
    default_on_packet_invoke_wrong_count true 0 same same (λ v. 0) (λ x y. x) (λ fd bs. 0) server
      proto lone_add 2 one_number (amf_pack_call_lem true add_name 2 one_number lone_add_short)
      (omega arith) one_number-IsValid (omega arith)
