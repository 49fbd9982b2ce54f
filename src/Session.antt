-- ===== src/Session.antt =====
-- include/rushkit.h: CHANNEL, PACKET and RTMP_PROTO, and the channel operations of
-- core/src/packet.c. An int is its 32-bit pattern.
use rushkit.Base.{
  ℕ, zero, suc, ◌+◌, ◌-◌, ◌%◌, ◌^◌, Bool, List, [], ◌∷◌, ◌++◌, Option, none, some, Bytes, ltb, ◌==◌,
  ◌||◌,
}
use rushkit.Base.Outcome.{Outcome, ok, fault, assert, ◌>>=◌, ◌>>◌}
use rushkit.Word.{is_negative_int}
use rushkit.Pool.{Pool}
use rushkit.Buffer.FixBuffer.{FixBuffer, rtmp_fwb_init}

pub record Channel : Type 0 where
  pub used : ℕ
  pub timer : ℕ
  pub size : ℕ
  pub data_type : ℕ
  pub stream_id : ℕ

-- `payload` are the `dataLen` bytes at `data`.
pub record Packet : Type 0 where
  pub channel_id : ℕ
  pub channel : Channel
  pub payload : Bytes

-- What the code tells its host: a message for `on_log`, or bytes for `on_write_data`.
pub data Event : Type 0 where
  unknown_addcode : ℕ → Event
  small_chunk_size : Event
  no_callback : ℕ → Event
  no_amf_callback : Event
  no_such_packet : ℕ → Event
  no_packet_callback : Event
  wrote : Bytes → Event

-- A block that a pointer stands for: NULL, malloc's, or one that has been given back.
pub data Block : Type 0 where
  null_block : Block
  live : Block
  dangling : Block

-- The four blocks of a connection.
pub record Memory : Type 0 where
  pub last_data_block : Block
  pub read_buffer_block : Block
  pub channels_in_block : Block
  pub channels_out_block : Block

-- RTMP_PROTO. `last_data` and `read_buffer` are the memory that these point to; `user_data` is an
-- address, with 0 for NULL. `events` are what the host has been told, in order, and `memory` says
-- what its pointers to blocks stand for. `method_table` and `last_tm_bytes_read` are left out.
pub record Proto : Type 0 where
  pub tmp_buf : FixBuffer
  pub pool : Pool
  pub ack_back_len : ℕ
  pub pkg_st : ℕ
  pub user_data : ℕ
  pub last_data_length : ℕ
  pub last_data : Bytes
  pub read_buffer : Bytes
  pub read_chunk_size : ℕ
  pub write_chunk_size : ℕ
  pub state : ℕ
  pub packet_mask : ℕ
  pub channel_id : ℕ
  pub channels_in : List Channel
  pub channels_out : List Channel
  pub data_buffer : FixBuffer
  pub last_timers : List ℕ
  pub num_up_bytes : ℕ
  pub num_down_bytes : ℕ
  pub next_request_id : ℕ
  pub events : List Event
  pub memory : Memory

-- `rtmp_proto_log`; the host's `on_log` only looks.
unfoldable pub rtmp_proto_log : Proto → Event → Proto
rtmp_proto_log proto message = record proto { events = proto.events ++ (message ∷ []) }

module _ {ℓ} {A : Type ℓ} where
  abbrev pub get_elem? : List A → ℕ → Option A
  get_elem? [] i = none
  get_elem? (x ∷ xs) zero = some x
  get_elem? (x ∷ xs) (suc i) = get_elem? xs i

  abbrev pub set : List A → ℕ → A → List A
  set [] i v = []
  set (x ∷ xs) zero v = v ∷ xs
  set (x ∷ xs) (suc i) v = x ∷ set xs i v

  abbrev pub replicate : ℕ → A → List A
  replicate zero a = []
  replicate (suc n) a = a ∷ replicate n a

-- An element of an array; a fault outside it, which a negative index is too.
abbrev pub at {ℓ} : {A : Type ℓ} → List A → ℕ → Outcome A
at xs i = elim (get_elem? xs i) [ none ↦ fault | some x ↦ ok x ]

-- All bytes zero.
abbrev pub zero_channel : Channel
zero_channel = record { used = 0; timer = 0; size = 0; data_type = 0; stream_id = 0 }

unfoldable pub init_channel : Channel
init_channel = record zero_channel { used = 1 }

-- The operations on the arrays of channels; the index of the first two is not checked.
unfoldable pub rtmp_packet_clear_out_channel : Proto → ℕ → Outcome Proto
unfolding init_channel
rtmp_packet_clear_out_channel proto channel_id =
    at proto.channels_out channel_id
    >>= (λ _. ok (record proto { channels_out = set proto.channels_out channel_id init_channel }))

unfoldable pub rtmp_packet_clear_in_channel : Proto → ℕ → Outcome Proto
unfolding init_channel
rtmp_packet_clear_in_channel proto channel_id =
    at proto.channels_in channel_id
    >>= (λ _. ok (record proto { channels_in = set proto.channels_in channel_id init_channel }))

-- `i < n` on ints, for a constant `n`.
abbrev pub int_lt : ℕ → ℕ → Bool
int_lt i n = is_negative_int i || ltb i n

unfoldable pub rtmp_packet_delete_out_channel : Proto → ℕ → Outcome Proto
rtmp_packet_delete_out_channel proto channel_id = do
  assert (int_lt channel_id 64)
  c ← at proto.channels_out channel_id
  ok (record proto { channels_out = set proto.channels_out channel_id (record c { used = 0 }) })

unfoldable pub rtmp_packet_delete_in_channel : Proto → ℕ → Outcome Proto
rtmp_packet_delete_in_channel proto channel_id = do
  assert (int_lt channel_id 64)
  c ← at proto.channels_in channel_id
  ok (record proto { channels_in = set proto.channels_in channel_id (record c { used = 0 }) })

-- The channel at `proto->channel_id`; the code gets a pointer to it.
unfoldable pub rtmp_proto_get_channel : Proto → Outcome Channel
rtmp_proto_get_channel proto = do
  assert (int_lt proto.channel_id 64)
  c ← at proto.channels_in proto.channel_id
  assert (c.used == 1)
  ok c

-- A write through the pointer that `rtmp_proto_get_channel` returns.
abbrev pub put_channel : Proto → Channel → Proto
put_channel proto c = record proto { channels_in = set proto.channels_in proto.channel_id c }

unfoldable pub rtmp_packet_reset : Proto → Proto
unfolding rtmp_fwb_init
rtmp_packet_reset proto = record proto {
  state = 0;
  packet_mask = 0;
  channel_id = 0;
  data_buffer = rtmp_fwb_init;
}

unfoldable pub rtmp_packet_init : Proto → Outcome Proto
unfolding rtmp_packet_clear_in_channel rtmp_packet_reset
rtmp_packet_init proto = do
  let p = record (rtmp_packet_reset proto) { read_chunk_size = 128; write_chunk_size = 128 }
  p₀ ← rtmp_packet_clear_in_channel p 0
  p₁ ← rtmp_packet_clear_in_channel p₀ 1
  p₂ ← rtmp_packet_clear_in_channel p₁ 2
  rtmp_packet_clear_in_channel p₂ 3

-- `clock() * 1000 / CLOCKS_PER_SEC` is given as `now`.
unfoldable pub rtmp_packet_get_last_timer : Proto → ℕ → ℕ → Outcome (ℕ × Proto)
rtmp_packet_get_last_timer proto now fn = do
  assert (int_lt fn 64)
  last ← at proto.last_timers fn
  ok ((now + 2 ^ 32 - last) % 2 ^ 32, record proto { last_timers = set proto.last_timers fn now })
