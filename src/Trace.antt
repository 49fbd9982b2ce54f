-- ===== src/Trace.antt =====
-- core/src/utils.c: `trace_buffer` and `trace_str`, which show bytes as text. The bytes at `buffer` are given
-- as the `len` bytes that are there, and `limit` as the pattern of an int.
pub mod Laws
use rushkit.Base.{
  ℕ, zero, suc, ◌+◌, ◌/◌, ◌%◌, ◌^◌, Bool, true, false, List, [], ◌∷◌, ◌++◌, Bytes, length, ltb, leb,
  ◌&&◌, ◌||◌, if◌then◌else◌,
}
use rushkit.Base.Outcome.{Outcome, ok, fault, ◌>>=◌}
use rushkit.Base.Text.{decimal, hex_digit}
use rushkit.Word.{is_negative_int}

-- `isprint` of the C library, in the locale that a program starts with.
abbrev pub isprint : ℕ → Bool
isprint c = leb 32 c && leb c 126

-- `%c`, or `\x%02x` of a byte.
unfoldable pub show_byte : ℕ → Bytes
show_byte b = if isprint b then b ∷ [] else 92 ∷ 120 ∷ hex_digit (b / 16) ∷ hex_digit (b % 16) ∷ []

-- `"..."`
abbrev pub dots : Bytes
dots = 46 ∷ 46 ∷ 46 ∷ []

-- `i > limit` on ints, for an `i` that is not negative.
abbrev pub above : ℕ → ℕ → Bool
above limit i = is_negative_int limit || ltb limit i

-- `"%s(%d) "`
unfoldable pub heading : Bytes → Bytes → Bytes
heading prompt buffer = prompt ++ (40 ∷ (decimal (length buffer) ++ (41 ∷ 32 ∷ [])))

-- The loop of `trace_buffer`, at the byte `i`.
unfoldable pub shown_from : ℕ → ℕ → Bytes → Bytes
unfolding show_byte
shown_from limit i [] = []
shown_from limit i (b ∷ bs) =
    let rest = shown_from limit (suc i) bs in show_byte b ++ (if above limit i then dots else rest)

-- What is printed.
unfoldable pub trace_buffer : Bytes → Bytes → ℕ → Bytes
unfolding heading shown_from
trace_buffer buffer prompt limit = heading prompt buffer ++ (shown_from limit 0 buffer ++ (10 ∷ []))

abbrev pub outbuffer_size : ℕ
outbuffer_size = 256

-- Text put behind the text in `outbuffer`, with a zero byte or room for it.
unfoldable pub append : Bytes → Bytes → Outcome Bytes
append text src = if ltb (length text + length src) outbuffer_size then ok (text ++ src) else fault

-- The loop of `trace_str`, at the byte `i` and with the text so far.
unfoldable pub append_from : ℕ → ℕ → Bytes → Bytes → Outcome Bytes
unfolding append show_byte
append_from limit i [] text = ok text
append_from limit i (b ∷ bs) text = do
  text' ← append text (show_byte b)
  elim (above limit i) [ true ↦ append text' dots | false ↦ append_from limit (suc i) bs text' ]

unfoldable pub trace_str : Bytes → Bytes → ℕ → Outcome Bytes
unfolding append_from heading
trace_str buffer prompt limit = do
  text ← append [] (heading prompt buffer)
  append_from limit 0 buffer text
