-- ===== src/Server/Receiving.antt =====
-- aux/connection.cpp: the bytes that a client sends, from `read` to the protocol.
use rushkit.Base.{
  ℕ, zero, suc, ◌+◌, ◌-◌, ◌%◌, ◌^◌, ◌<◌, ◌≤◌, ◌≡◌, inl, inr, refl, sym, ap, ◌∙◌, Bool, true, List,
  [], ◌∷◌, ◌++◌, some, All, Bytes, arith, lengths, length-append_bytes, length, take, drop,
  length-take, take-append_length, drop-append_length, append_assoc, ltb, leb, Bool-cases, if-true,
}
use mathlib.Core.List.{map}
use rushkit.Base.Outcome.{ok, ◌>>=◌}
use rushkit.Session.{Proto, wrote}
use rushkit.Protocol.{MethodTable}
use rushkit.Protocol.Feed.{rtmp_proto_feed, rtmp_proto_prepare_buffer, put_last_data, overwrite}
use rushkit.Session.{rtmp_packet_reset}
use rushkit.Packet.Receive.Steps.{at_header}
use rushkit.Packet.Receive.NewPacket.{same_channel}
use rushkit.Protocol.InOrder.{
  noting, Framed, payload_of, stream_of, IsReadable, IsReady, rtmp_proto_feed-stream_of,
}
use rushkit.Server.Map.{find}
use rushkit.Server.Events.{after, on_rtmp_read-receive_into}
use rushkit.Server.{
  Connection, Server, Received, got, take_in, receive_into, on_rtmp_read, update, write_at, as_size,
  is_positive,
}

drop-drop : (m n k : ℕ) (xs : Bytes) → k ≡ m + n → drop n (drop m xs) ≡ drop k xs
drop-drop zero n k xs e = let same : n ≡ k = omega arith in ap (λ i. drop i xs) same
drop-drop (suc m) n zero xs e = absurd (omega arith)
drop-drop (suc m) zero (suc k) [] e = refl
drop-drop (suc m) (suc n) (suc k) [] e = refl
drop-drop (suc m) n (suc k) (x ∷ xs) e = drop-drop m n k xs (omega arith)

take-append_le : (n : ℕ) (xs ys : Bytes) → n ≤ length xs → take n (xs ++ ys) ≡ take n xs
take-append_le zero xs ys h = refl
take-append_le (suc n) [] ys h = absurd (omega arith)
take-append_le (suc n) (x ∷ xs) ys h = ap (λ r. x ∷ r) (take-append_le n xs ys (omega arith))

-- The connection as it is fed: the bytes that were kept stand in front of the new ones.
abbrev pub filled : Proto → Bytes → Proto
filled proto bs =
    let kept = proto.last_data_length in
    record proto {
      last_data_length = 0;
      read_buffer = take kept proto.last_data ++ (bs ++ drop (kept + length bs) proto.read_buffer);
    }

write_at-overwrite :
    (buffer front bs : Bytes) (n : ℕ)
    → n ≡ length front
    → write_at (overwrite buffer front) n bs ≡ front ++ (bs ++ drop (n + length bs) buffer)
write_at-overwrite buffer front bs n e =
    let m = length front + length bs in
    let tail = drop (length front) buffer in
    let behind : drop m (front ++ tail) ≡ drop m buffer =
      sym (drop-drop (length front) (length bs) m (front ++ tail) refl)
      ∙ ap (drop (length bs)) (drop-append_length front tail)
      ∙ drop-drop (length front) (length bs) m buffer refl in
    rw e (rw (take-append_length front tail, behind) refl)

module _ (small : Bool) (table : MethodTable) (now : ℕ) (to_double from_double : ℕ → ℕ)
    (alloc : ℕ → Bytes) where
  take_in_got :
      (proto : Proto) (offset room : ℕ) (bs : Bytes)
      → 0 < length bs
      → length bs ≤ room
      → room < 2 ^ 31
      → take_in small table now to_double from_double alloc proto offset room (got bs) ≡ (
          rtmp_proto_feed small table now to_double from_double alloc
            (record proto { read_buffer = write_at proto.read_buffer offset bs })
            (length bs)
          >>= (λ p. ok (length bs, p)))
  unfolding take_in
  take_in_got proto offset room bs some_bytes fits bounded =
      let allowed : leb (as_size (length bs % 2 ^ 32)) room ≡ true = ground arith in
      let positive : is_positive (length bs % 2 ^ 32) ≡ true = ground arith in
      let whole : length bs % 2 ^ 32 ≡ length bs = omega arith in rw (allowed, positive, whole) refl

prepare_buffer_lem :
    (proto : Proto) (bs : Bytes)
    → proto.last_data_length ≤ length proto.last_data
    → let (offset, room, p) = rtmp_proto_prepare_buffer proto in
      (offset ≡ proto.last_data_length)
      × (room ≡ 8192 - proto.last_data_length)
      × (record p { read_buffer = write_at p.read_buffer offset bs } ≡ filled proto bs)
unfolding rtmp_proto_prepare_buffer put_last_data
prepare_buffer_lem proto bs h = elim (Bool-cases (ltb 0 proto.last_data_length)) [
  | inl some_kept ↦ rw some_kept (
    refl,
    refl,
    ap (λ r. record proto { last_data_length = 0; read_buffer = r })
        (write_at-overwrite proto.read_buffer (take proto.last_data_length proto.last_data) bs
          proto.last_data_length
          (omega (arith, length-take proto.last_data_length proto.last_data))),
  )
  | inr nothing ↦
      let zero_kept : proto.last_data_length ≡ 0 = ground arith in
      rw nothing (
        refl,
        refl,
        ap (λ r. record proto { last_data_length = 0; read_buffer = r }) (rw zero_kept refl),
      )
]

module _ (small : Bool) (table : MethodTable) (now : ℕ) (to_double from_double : ℕ → ℕ)
    (alloc : ℕ → Bytes) (read : ℕ → Received) where
  -- When `read` gives some bytes, no more than there is room for, the protocol is fed with the bytes that it has kept and the new
  -- ones behind them, but only as many as there are new ones: the last bytes, as many as were kept, are
  -- not looked at.
  pub receive_into_lem :
      (proto : Proto) (bs : Bytes)
      → proto.last_data_length ≤ length proto.last_data
      → read (8192 - proto.last_data_length) ≡ got bs
      → 0 < length bs
      → length bs ≤ 8192 - proto.last_data_length
      → (receive_into small table now to_double from_double alloc read proto ≡ (
          rtmp_proto_feed small table now to_double from_double alloc (filled proto bs) (length bs)
          >>= (λ p. ok (length bs, p))))
        × (take (length bs) (filled proto bs).read_buffer
            ≡ take (length bs) (take proto.last_data_length proto.last_data ++ bs))
  unfolding receive_into
  receive_into_lem proto bs held gives some_bytes fits =
      let (offset, room, p) = rtmp_proto_prepare_buffer proto in
      let (_, sized, same) = prepare_buffer_lem proto bs held in
      let kept = take proto.last_data_length proto.last_data in
      (
        ap (take_in small table now to_double from_double alloc p offset room)
              (ap read sized ∙ gives)
            ∙ take_in_got small table now to_double from_double alloc p offset room bs some_bytes
                (omega (arith, sized, fits)) (omega (arith, sized))
            ∙ ap
                (λ q.
                  rtmp_proto_feed small table now to_double from_double alloc q (length bs)
                  >>= (λ p'. ok (length bs, p')))
                same,
        ap (take (length bs)) (
              sym (
                append_assoc kept bs (drop (proto.last_data_length + length bs) proto.read_buffer)))
            ∙ take-append_le (length bs) (kept ++ bs) _
                (omega (lengths, length-append_bytes kept bs)),
      )

IsReady-filled :
    (chunk id : ℕ) (p : Proto) (bs : Bytes) → IsReady chunk id p → IsReady chunk id (filled p bs)
unfolding rtmp_packet_reset
IsReady-filled chunk id p bs r = record {
  shaken = r.shaken;
  between = r.between;
  chunks = r.chunks;
  old = r.old;
  known = same_channel (at_header p id) (at_header (filled p bs) id) r.old r.known refl refl;
}

-- A client's packets, from its socket to the callback for packets, where that callback is one that only
-- notes the payload that it gets, in place of the library's own, which the server uses and which can
-- fail an assert on a packet: when `read` gives any number of whole packets at once, at least one, the
-- callback gets each of them, in their order and each with its payload; `on_rtmp_read` returns, and the
-- connection stays with the server and is ready for more. The connection is past the handshake, between
-- packets, and has kept no bytes; the packets are laid out as new on a channel from 2 to 63 that is in
-- use, each readable in chunks of the size that the connection reads, and fit the room of 8192 bytes.
pub on_rtmp_read-stream_of :
    (small : Bool) (table : MethodTable) (now : ℕ) (to_double from_double : ℕ → ℕ)
    (alloc : ℕ → Bytes) (read : ℕ → Received) (server : Server) (this : ℕ) (conn : Connection)
    (chunk id : ℕ) (packets : List Framed)
    → find server.objects this ≡ some conn
    → 2 ≤ id
    → id < 64
    → IsReady chunk id conn.proto
    → All (IsReadable chunk) packets
    → conn.proto.last_data_length ≡ 0
    → read 8192 ≡ got (stream_of id packets)
    → 0 < length (stream_of id packets)
    → length (stream_of id packets) ≤ 8192
    → (p : Proto) × (on_rtmp_read small
          (noting table)
          now
          to_double
          from_double
          alloc
          read
          server
          this
        ≡ ok (update server this (record conn { proto = p })))
      × (p.events ≡ conn.proto.events ++ map (λ i. wrote (payload_of i)) packets)
      × IsReady chunk id p
on_rtmp_read-stream_of small table now to_double from_double alloc read server this conn chunk id
      packets there lo hi ready readable none_kept gives some_bytes fits =
    let src = stream_of id packets in
    let room : 8192 ≡ 8192 - conn.proto.last_data_length = omega arith in
    let (e, _) =
      receive_into_lem small (noting table) now to_double from_double alloc read conn.proto src
        (omega arith) (ap read (sym room) ∙ gives) some_bytes (omega arith) in
    let (p, fed, told, ready') =
      rtmp_proto_feed-stream_of small table now to_double from_double alloc chunk id lo hi
        (filled conn.proto src) packets (drop (0 + length src) conn.proto.read_buffer)
        (IsReady-filled chunk id conn.proto src ready) readable (rw none_kept refl) in
    let positive : is_positive (length src) ≡ true = ground arith in
    (
      p,
      on_rtmp_read-receive_into small (noting table) now to_double from_double alloc read server
            this conn there
          ∙ ap (λ o. o >>= (λ (len, q). after len server this (record conn { proto = q })))
              (e ∙ ap (λ o. o >>= (λ q. ok (length src, q))) fed)
          ∙ if-true (is_positive (length src)) _ _ positive,
      told,
      ready',
    )
