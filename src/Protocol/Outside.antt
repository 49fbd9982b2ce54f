-- ===== src/Protocol/Outside.antt =====
-- What a connection can send between two packets.
use rushkit.Base.{inl, inr, ℕ, ◌+◌, ◌≡◌, ◌^◌, ◌%◌, refl, ap, Bool, false, List, Option, none, Bytes}
use mathlib.Core.Option.{get_or}
use rushkit.Base.Outcome.{ok, abort, ◌>>=◌}
use rushkit.Amf.{Value}
use rushkit.Amf.Encode.Size.{amf_pack_call_result}
use rushkit.Pool.{Pool}
use rushkit.Buffer.WriteBuffer.{rtmp_wb_init}
use rushkit.Session.{Channel, Packet, Proto, at, set, rtmp_packet_reset, rtmp_packet_get_last_timer}
use rushkit.Packet.Send.Headers.{rtmp_packet_write_packet-rtmp_packet_reset}
use rushkit.Protocol.{MethodTable}
use rushkit.Protocol.Send.{rtmp_proto_send_packet, rtmp_proto_send_bytes_read, rtmp_proto_call}

send_packet_aborts :
    (small : Bool) (table : MethodTable) (proto : Proto) (ppool : Option Pool) (pac : Packet)
    (rel : Bool) (old : Channel)
    → at proto.channels_out pac.channel_id ≡ ok old
    → rtmp_proto_send_packet small table (rtmp_packet_reset proto) ppool pac rel ≡ abort
unfolding rtmp_proto_send_packet
send_packet_aborts small table proto ppool pac rel old e =
    rw
      (rtmp_packet_write_packet-rtmp_packet_reset small proto
        (rtmp_wb_init (get_or ppool (rtmp_packet_reset proto).pool) 1024) pac rel old e)
      refl

-- Between packets `rtmp_proto_send_bytes_read` fails an assert, whatever the host's callbacks are, in
-- a connection that has a channel 2.
pub rtmp_proto_send_bytes_read-rtmp_packet_reset :
    (small : Bool) (table : MethodTable) (proto : Proto) (old : Channel)
    → at proto.channels_out 2 ≡ ok old
    → rtmp_proto_send_bytes_read small table (rtmp_packet_reset proto) ≡ abort
unfolding rtmp_proto_send_bytes_read
rtmp_proto_send_bytes_read-rtmp_packet_reset small table proto old e =
    ap (λ o. o >>= (λ r. ok r.2)) (send_packet_aborts small table proto none _ false old e)

-- Between packets `rtmp_proto_call` fails an assert, whatever is called, in a connection that has a
-- channel 3 with a timer.
pub rtmp_proto_call-rtmp_packet_reset :
    (small : Bool) (table : MethodTable) (to_double : ℕ → ℕ) (now : ℕ) (proto : Proto)
    (name : Bytes) (args : List Value) (old : Channel) (last : ℕ)
    → at proto.channels_out 3 ≡ ok old
    → at proto.last_timers 3 ≡ ok last
    → rtmp_proto_call small table to_double now (rtmp_packet_reset proto) name args ≡ abort
unfolding rtmp_proto_call rtmp_packet_get_last_timer rtmp_packet_reset
rtmp_proto_call-rtmp_packet_reset small table to_double now proto name args old last e t =
    elim (amf_pack_call_result small name (to_double proto.next_request_id) args) [
      | inl packed ↦
          rw (t, packed)
            (ap (λ o. o >>= (λ r. ok (proto.next_request_id, r.2)))
              (send_packet_aborts small table
                (record proto {
                  last_timers = set proto.last_timers 3 now;
                  next_request_id = (proto.next_request_id + 1) % 2 ^ 64;
                })
                none _ false old e))
      | inr failed ↦ rw (t, failed) refl
    ]
