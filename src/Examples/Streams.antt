-- ===== src/Examples/Streams.antt =====
-- core/src/protocol.c: two packets fed to a concrete connection.
use mathlib.Core.List.{map}
use rushkit.Base.{◌≡◌, refl, true, List, [], ◌∷◌, ◌++◌, All, arith, length}
use rushkit.Base.Outcome.{ok}
use rushkit.Session.{
  Proto, wrote, replicate, zero_channel, rtmp_packet_reset, rtmp_proto_get_channel,
}
use rushkit.Protocol.{rtmp_proto_method_table_init}
use rushkit.Protocol.Feed.{rtmp_proto_feed}
use rushkit.Protocol.InOrder.{
  noting, Framed, payload_of, stream_of, IsReadable, IsReady, rtmp_proto_feed-stream_of,
}
use rushkit.Examples.Delivery.{receiver}

-- A packet in two chunks, and one in a single one.
abbrev pub packets : List Framed
packets =
    record {
      channel = record { used = 0; timer = 7; size = 3; data_type = 4; stream_id = 0 };
      pieces = (10 ∷ 20 ∷ []) ∷ [];
      last = 30 ∷ [];
    }
    ∷ record {
      channel = record { used = 0; timer = 9; size = 1; data_type = 8; stream_id = 1 };
      pieces = [];
      last = 40 ∷ [];
    }
    ∷ []

pub packets-IsReadable : All (IsReadable 2) packets
packets-IsReadable = (
  record {
    timer_fits = omega arith;
    typed = omega arith;
    size_fits = omega arith;
    size_right = refl;
    pieces_right = record {
      whole = refl;
      full = (refl, tt);
      some_last = omega arith;
      last_fits = omega arith;
    };
  },
  (
    record {
      timer_fits = omega arith;
      typed = omega arith;
      size_fits = omega arith;
      size_right = refl;
      pieces_right = record {
        whole = refl;
        full = tt;
        some_last = omega arith;
        last_fits = omega arith;
      };
    },
    tt,
  ),
)

abbrev pub shaken : Proto
shaken = record receiver { pkg_st = 3; read_buffer = stream_of 3 packets ++ [] }

pub shaken-IsReady : IsReady 2 3 shaken
unfolding rtmp_proto_get_channel rtmp_packet_reset
shaken-IsReady = record {
  shaken = refl;
  between = refl;
  chunks = refl;
  old = record zero_channel { used = 1 };
  known = refl;
}

rtmp_proto_feed-stream_of_example :
    (p' : Proto) × (rtmp_proto_feed true
        (noting rtmp_proto_method_table_init)
        0
        (λ n. n)
        (λ n. n)
        (λ n. replicate n 0)
        shaken
        (length (stream_of 3 packets))
      ≡ ok p')
    × (p'.events ≡ shaken.events ++ map (λ i. wrote (payload_of i)) packets)
    × IsReady 2 3 p'
rtmp_proto_feed-stream_of_example =
    rtmp_proto_feed-stream_of true rtmp_proto_method_table_init 0 (λ n. n) (λ n. n)
      (λ n. replicate n 0) 2 3 (omega arith) (omega arith) shaken packets [] shaken-IsReady
      packets-IsReadable refl
