-- ===== src/Protocol/Lifetime.antt =====
-- core/src/protocol.c: a connection's beginning and end, `rtmp_proto_init` and `rtmp_proto_free`, and
-- the host's pointer in it.
use rushkit.Base.{
  ℕ, zero, suc, ◌≡◌, ◌<◌, refl, Bool, true, false, List, [], ◌∷◌, some, Bytes, arith, if◌then◌else◌,
}
use rushkit.Base.Outcome.{Outcome, ok, fault, ◌>>=◌}
use rushkit.Pool.{rt_pool_init}
use rushkit.Pool.Blocks
use rushkit.Pool.Blocks.{rt_pool_init-IsValid}
use rushkit.Buffer.FixBuffer.{rtmp_fwb_init}
use rushkit.Session.{
  Channel, Proto, Memory, Block, null_block, live, dangling, replicate, get_elem?, zero_channel,
  init_channel, rtmp_packet_init, rtmp_packet_reset, rtmp_packet_clear_in_channel,
  rtmp_packet_clear_out_channel,
}
use rushkit.Protocol.Feed.{buffer_sz}

unfoldable pub rtmp_proto_get_user_data : Proto → ℕ
rtmp_proto_get_user_data proto = proto.user_data

unfoldable pub rtmp_proto_set_user_data : Proto → ℕ → Proto
rtmp_proto_set_user_data proto user_data = record proto { user_data = user_data }

abbrev pub all_live : Memory
all_live = record {
  last_data_block = live;
  read_buffer_block = live;
  channels_in_block = live;
  channels_out_block = live;
}

abbrev pub all_dangling : Memory
all_dangling = record {
  last_data_block = dangling;
  read_buffer_block = dangling;
  channels_in_block = dangling;
  channels_out_block = dangling;
}

-- The fields that are not set keep what the memory holds. `alloc n` is what a `malloc` gives.
unfoldable pub rtmp_proto_init : (ℕ → Bytes) → Proto → Outcome Proto
rtmp_proto_init alloc proto = do
  let p = record proto {
    pool = rt_pool_init proto.pool;
    last_data = alloc 128;
    read_buffer = alloc buffer_sz;
    user_data = 0;
    memory = all_live;
    next_request_id = 1;
    pkg_st = 0;
    num_up_bytes = 0;
    num_down_bytes = 0;
    ack_back_len = 1536;
    last_data_length = 0;
    channels_in = replicate 64 zero_channel;
    channels_out = replicate 64 zero_channel;
    last_timers = replicate 64 0;
  }
  p₀ ← rtmp_packet_init p
  p₁ ← rtmp_packet_clear_out_channel (record p₀ { tmp_buf = rtmp_fwb_init }) 0
  p₂ ← rtmp_packet_clear_out_channel p₁ 1
  p₃ ← rtmp_packet_clear_out_channel p₂ 2
  rtmp_packet_clear_out_channel p₃ 3

-- `free`, which RELEASE calls: of NULL it does nothing, and a block is given back once only.
unfoldable pub release_block : Block → Outcome Block
release_block null_block = ok null_block
release_block live = ok dangling
release_block dangling = fault

abbrev is_null : Block → Bool
is_null null_block = true
is_null live = false
is_null dangling = false

-- The two blocks that are looked at first. What a block held is gone with it.
unfoldable pub free_last_data : Proto → Outcome Proto
unfolding release_block
free_last_data proto = if is_null proto.memory.last_data_block then ok proto else (do
  block ← release_block proto.memory.last_data_block
  ok (record proto {
    last_data_length = 0;
    last_data = [];
    memory = record (proto.memory) { last_data_block = block };
  }))

unfoldable pub free_read_buffer : Proto → Outcome Proto
unfolding release_block
free_read_buffer proto = if is_null proto.memory.read_buffer_block then ok proto else (do
  block ← release_block proto.memory.read_buffer_block
  ok (record proto {
    read_buffer = [];
    memory = record (proto.memory) { read_buffer_block = block };
  }))

-- The pointers are not set to NULL. The pool and the buffers for a packet are not touched.
unfoldable pub rtmp_proto_free : Proto → Outcome Proto
unfolding free_last_data free_read_buffer release_block
rtmp_proto_free proto = do
  p₁ ← free_last_data proto
  p₂ ← free_read_buffer p₁
  let p₃ = record p₂ { user_data = 0 }
  block_in ← release_block p₃.memory.channels_in_block
  block_out ← release_block p₃.memory.channels_out_block
  ok (record p₃ {
    channels_in = [];
    channels_out = [];
    memory = record (p₃.memory) { channels_in_block = block_in; channels_out_block = block_out };
  })

-- What `rtmp_proto_init` makes of `before`, the events apart whatever it was: the channels from 0 to 3 in use, and no other.
pub record IsInitial (before p : Proto) : Type 0 where
  pub no_events : p.events ≡ before.events
  pub held : p.memory ≡ all_live
  pub pool_valid : Blocks.IsValid p.pool
  pub no_shake : p.tmp_buf ≡ rtmp_fwb_init
  pub no_packet : p.data_buffer ≡ rtmp_fwb_init
  pub none_read : p.num_up_bytes ≡ 0
  pub none_written : p.num_down_bytes ≡ 0
  pub first_request : p.next_request_id ≡ 1
  pub no_timers : p.last_timers ≡ replicate 64 0
  pub no_user_data : p.user_data ≡ 0
  pub before_connect : p.pkg_st ≡ 0
  pub between : p.state ≡ 0
  pub read_chunk : p.read_chunk_size ≡ 128
  pub write_chunk : p.write_chunk_size ≡ 128
  pub none_kept : p.last_data_length ≡ 0
  pub to_skip : p.ack_back_len ≡ 1536
  pub used_in : (id : ℕ) → id < 4 → get_elem? p.channels_in id ≡ some init_channel
  pub used_out : (id : ℕ) → id < 4 → get_elem? p.channels_out id ≡ some init_channel
  pub unused_in :
      (id : ℕ) → id < 60 → get_elem? p.channels_in (suc (suc (suc (suc id)))) ≡ some zero_channel
  pub unused_out :
      (id : ℕ) → id < 60 → get_elem? p.channels_out (suc (suc (suc (suc id)))) ≡ some zero_channel

get_elem-replicate {ℓ} :
    {A : Type ℓ} (n : ℕ) (a : A) (i : ℕ) → i < n → get_elem? (replicate n a) i ≡ some a
get_elem-replicate zero a i h = absurd (omega arith)
get_elem-replicate (suc n) a zero h = refl
get_elem-replicate (suc n) a (suc i) h = get_elem-replicate n a i (omega arith)

first_four :
    (xs : List Channel) (id : ℕ)
    → id < 4
    → get_elem? (init_channel ∷ init_channel ∷ init_channel ∷ init_channel ∷ xs) id
      ≡ some init_channel
first_four xs zero h = refl
first_four xs (suc zero) h = refl
first_four xs (suc (suc zero)) h = refl
first_four xs (suc (suc (suc zero))) h = refl
first_four xs (suc (suc (suc (suc id)))) h = absurd (omega arith)

-- Whatever the memory of a connection holds, `rtmp_proto_init` returns, with the connection that
-- `IsInitial` describes.
pub rtmp_proto_init-IsInitial :
    (alloc : ℕ → Bytes) (proto : Proto)
    → (p : Proto) × (rtmp_proto_init alloc proto ≡ ok p) × IsInitial proto p
unfolding rtmp_proto_init rtmp_packet_init rtmp_packet_reset rtmp_packet_clear_in_channel
    rtmp_packet_clear_out_channel
rtmp_proto_init-IsInitial alloc proto = (
  _,
  refl,
  record {
    no_events = refl;
    held = refl;
    pool_valid = rt_pool_init-IsValid proto.pool;
    no_shake = refl;
    no_packet = refl;
    none_read = refl;
    none_written = refl;
    first_request = refl;
    no_timers = refl;
    no_user_data = refl;
    before_connect = refl;
    between = refl;
    read_chunk = refl;
    write_chunk = refl;
    none_kept = refl;
    to_skip = refl;
    used_in = first_four (replicate 60 zero_channel);
    used_out = first_four (replicate 60 zero_channel);
    unused_in = get_elem-replicate 60 zero_channel;
    unused_out = get_elem-replicate 60 zero_channel;
  },
)

-- A connection that has been given back.
abbrev pub freed : Proto → Proto
freed proto = record proto {
  last_data_length = 0;
  last_data = [];
  read_buffer = [];
  user_data = 0;
  channels_in = [];
  channels_out = [];
  memory = all_dangling;
}

pub rtmp_proto_free_lem :
    (proto : Proto) → proto.memory ≡ all_live → rtmp_proto_free proto ≡ ok (freed proto)
unfolding rtmp_proto_free
rtmp_proto_free_lem proto h = rw h refl

-- A connection whose four blocks are malloc's, as `rtmp_proto_init` leaves them, can be freed: each of
-- the four is given back, the host's pointer is NULL, and the memory of its pool and of its two packet
-- buffers is still held. A second `rtmp_proto_free` gives a block back that is not malloc's any more.
pub rtmp_proto_free_twice :
    (proto : Proto)
    → proto.memory ≡ all_live
    → (p : Proto) × (rtmp_proto_free proto ≡ ok p)
      × (p.memory ≡ all_dangling)
      × (rtmp_proto_get_user_data p ≡ 0)
      × (p.pool ≡ proto.pool)
      × (p.tmp_buf ≡ proto.tmp_buf)
      × (p.data_buffer ≡ proto.data_buffer)
      × (rtmp_proto_free p ≡ fault)
unfolding rtmp_proto_free rtmp_proto_get_user_data
rtmp_proto_free_twice proto h =
    (freed proto, rtmp_proto_free_lem proto h, refl, refl, refl, refl, refl, refl)
