-- ===== src/Buffer/RoundTrip.antt =====
-- What a write buffer takes, a read buffer over its bytes gives back.
use rushkit.Base.{
  ℕ, ◌+◌, ◌-◌, ◌*◌, ◌/◌, ◌%◌, ◌^◌, ◌<◌, ◌≡◌, sym, ap, ◌∙◌, Bool, [], ◌∷◌, ◌++◌, append-nil, arith,
  Bytes, length, lengths, take, take_of_length-le, drop, drop-append_length,
}
use rushkit.Base.Outcome.{ok}
use rushkit.Word.{load_data, in_memory}
use rushkit.Word.Wire.{from_memory-load_data, length-load_data_word}
use rushkit.Buffer.WriteBuffer.{
  WriteBuffer, rtmp_wb_write, rtmp_wb_write_short, rtmp_wb_write_double, rtmp_wb_write_medium_int,
}
use rushkit.Buffer.WriteBuffer.Laws.{Appended, rtmp_wb_write_lem}
use rushkit.Buffer.WriteBuffer.Laws as Written
use rushkit.Buffer.ReadBuffer.{
  ReadBuffer, read_bytes, rtmp_rb_read_short_e, rtmp_rb_read_double_e, rtmp_rb_read_medium_int_e,
}
use rushkit.Buffer.ReadBuffer.Laws.{
  IsValid, remaining, advance, reads, rtmp_rb_read_medium_int_e-ok,
}

-- A reader of what a writer has written, from where `b` had come to.
abbrev pub reader : WriteBuffer → WriteBuffer → ReadBuffer
reader b b' = record {
  buf = b'.written;
  current = length b.written;
  len = length b'.written;
  need_more = 0;
}

rest_of :
    (w xs src : Bytes) → w ≡ xs ++ src → take (length w - length xs) (drop (length xs) w) ≡ src
rest_of w xs src e =
    rw (e, drop-append_length xs src)
      (take_of_length-le (length (xs ++ src) - length xs) src (omega lengths))

pub reader_lem :
    (b b' : WriteBuffer) (src : Bytes)
    → b'.written ≡ b.written ++ src
    → IsValid (reader b b') × (remaining (reader b b') ≡ src)
reader_lem b b' src e = (
  record { behind = omega (lengths, ap length e); inside = omega arith },
  rest_of b'.written b.written src e,
)

-- The bytes of a write, read back.
read_bytes-write :
    (b : WriteBuffer) (src : Bytes) (n : ℕ)
    → Written.IsValid b
    → length b.written + length src < 2 ^ 29
    → length src ≡ n
    → (out : ℕ × WriteBuffer) × (rtmp_wb_write b src ≡ ok out)
      × (read_bytes (reader b out.1) n ≡ ok (src, advance (reader b out.1) n))
read_bytes-write b src n v l e =
    let (out, w, a) = rtmp_wb_write_lem b src v l in
    let (v', r) = reader_lem b out.1 src a.bytes in
    (out, w, (reads v' src [] (r ∙ sym (append-nil src)) n e).0)

-- A 16-bit pattern that `rtmp_wb_write_short` writes, `rtmp_rb_read_short_e` reads, on either machine,
-- from a valid buffer that stays below 2 ^ 29 bytes.
pub rtmp_rb_read_short_e-rtmp_wb_write_short :
    (small : Bool) (b : WriteBuffer) (v : ℕ)
    → Written.IsValid b
    → length b.written + 2 < 2 ^ 29
    → v < 2 ^ 16
    → (out : ℕ × WriteBuffer) × (rtmp_wb_write_short small b v ≡ ok out)
      × (rtmp_rb_read_short_e small (reader b out.1) ≡ ok (v, advance (reader b out.1) 2))
unfolding rtmp_wb_write_short rtmp_rb_read_short_e
rtmp_rb_read_short_e-rtmp_wb_write_short small b v h l lt =
    let n = length-load_data_word small 2 v in
    let (out, w, r) =
      read_bytes-write b (load_data small (in_memory small 2 v)) 2 h (omega (arith, n)) n in
    (out, w, rw r (rw (from_memory-load_data small 2 v (omega arith))))

-- A double that `rtmp_wb_write_double` writes, `rtmp_rb_read_double_e` reads, on either machine,
-- from a valid buffer that stays below 2 ^ 29 bytes.
pub rtmp_rb_read_double_e-rtmp_wb_write_double :
    (small : Bool) (b : WriteBuffer) (v : ℕ)
    → Written.IsValid b
    → length b.written + 8 < 2 ^ 29
    → v < 2 ^ 64
    → (out : ℕ × WriteBuffer) × (rtmp_wb_write_double small b v ≡ ok out)
      × (rtmp_rb_read_double_e small (reader b out.1) ≡ ok (v, advance (reader b out.1) 8))
unfolding rtmp_wb_write_double rtmp_rb_read_double_e
rtmp_rb_read_double_e-rtmp_wb_write_double small b v h l lt =
    let n = length-load_data_word small 8 v in
    let (out, w, r) =
      read_bytes-write b (load_data small (in_memory small 8 v)) 8 h (omega (arith, n)) n in
    (out, w, rw r (rw (from_memory-load_data small 8 v (omega arith))))

-- Of an int that `rtmp_wb_write_medium_int` writes, `rtmp_rb_read_medium_int_e` reads the low 24
-- bits, from a valid buffer that stays below 2 ^ 29 bytes.
pub rtmp_rb_read_medium_int_e-rtmp_wb_write_medium_int :
    (b : WriteBuffer) (e : ℕ)
    → Written.IsValid b
    → length b.written + 3 < 2 ^ 29
    → (out : ℕ × WriteBuffer) × (rtmp_wb_write_medium_int b e ≡ ok out)
      × (rtmp_rb_read_medium_int_e (reader b out.1) ≡ ok (e % 2 ^ 24, advance (reader b out.1) 3))
unfolding rtmp_wb_write_medium_int
rtmp_rb_read_medium_int_e-rtmp_wb_write_medium_int b e h l =
    let (out, w, a) =
      rtmp_wb_write_lem b ((e / 2 ^ 16 % 256) ∷ (e / 2 ^ 8 % 256) ∷ (e % 256) ∷ []) h l in
    let (v', r) = reader_lem b out.1 _ a.bytes in
    let low : e / 2 ^ 16 % 256 * 2 ^ 16 + e / 2 ^ 8 % 256 * 2 ^ 8 + e % 256 ≡ e % 2 ^ 24 =
      omega arith in
    (out, w, rw (rtmp_rb_read_medium_int_e-ok v' _ _ _ [] r) (rw low))
