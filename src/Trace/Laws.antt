-- ===== src/Trace/Laws.antt =====
-- core/src/utils.c: the text that `trace_str` gives, and when it fits.
use rushkit.Base.{
  ℕ, suc, ◌+◌, ◌*◌, ◌-◌, ◌^◌, ◌≤◌, ◌<◌, ◌≡◌, inl, inr, refl, sym, ap, ap₂, ◌∙◌, Bool, true, false,
  [], ◌∷◌, ◌++◌, append_assoc, append-nil, Bytes, arith, lengths, length, length-append_bytes, ltb,
  lt→ltb, Bool-cases, if-true, if-false, if◌then◌else◌,
}
use rushkit.Base.Outcome.{Outcome, ok, fault, ◌>>=◌}
use rushkit.Base.Text.{decimal, decimal_bounded}
use rushkit.Trace.{
  show_byte, dots, above, heading, shown_from, trace_buffer, outbuffer_size, append, append_from,
  trace_str,
}

-- A last byte can be taken off.
line_injective : (xs ys : Bytes) → xs ++ (10 ∷ []) ≡ ys ++ (10 ∷ []) → xs ≡ ys
line_injective [] [] e = refl
line_injective [] (y ∷ ys) e =
    absurd (omega (lengths, ap length e, length-append_bytes ys (10 ∷ [])))
line_injective (x ∷ xs) [] e =
    absurd (omega (lengths, ap length e, length-append_bytes xs (10 ∷ [])))
line_injective (x ∷ xs) (y ∷ ys) e = ap₂ (λ a r. a ∷ r) (cc) (line_injective xs ys (cc))

-- A text that is there if it fits `outbuffer`.
abbrev pub fitting : Bytes → Outcome Bytes
fitting text = if ltb (length text) outbuffer_size then ok text else fault

append-fitting : (text src : Bytes) → append text src ≡ fitting (text ++ src)
unfolding append
append-fitting text src = rw (length-append_bytes text src) refl

fitting-ok : (text : Bytes) → length text < outbuffer_size → fitting text ≡ ok text
fitting-ok text h = if-true _ _ _ (lt→ltb (length text) outbuffer_size h)

fitting-fault : (text : Bytes) → outbuffer_size ≤ length text → fitting text ≡ fault
fitting-fault text h =
    let too_long : ltb (length text) outbuffer_size ≡ false = ground arith in
    if-false _ _ _ too_long

-- A text that grows: if the first part does not fit, the whole does not.
fitting-bind :
    (xs ys : Bytes) (f : Bytes → Outcome Bytes)
    → (length xs < outbuffer_size → f xs ≡ fitting (xs ++ ys))
    → (fitting xs >>= f) ≡ fitting (xs ++ ys)
fitting-bind xs ys f h = elim (Bool-cases (ltb (length xs) outbuffer_size)) [
  | inl fits ↦
      let small : length xs < outbuffer_size = ground arith in
      ap (λ o. o >>= f) (fitting-ok xs small) ∙ h small
  | inr too_long ↦
      let large : outbuffer_size ≤ length xs = ground arith in
      ap (λ o. o >>= f) (fitting-fault xs large)
      ∙ sym (fitting-fault (xs ++ ys) (omega (lengths, large)))
]

abbrev behind_byte : ℕ → ℕ → Bytes → Bytes → Outcome Bytes
behind_byte limit i bs text = elim (above limit i) [
  | true ↦ append text dots
  | false ↦ append_from limit (suc i) bs text
]

either :
    (t : Bool) (x y : Outcome Bytes) (front u v : Bytes)
    → x ≡ fitting (front ++ u)
    → y ≡ fitting (front ++ v)
    → (elim t [ true ↦ x | false ↦ y ]) ≡ fitting (front ++ (if t then u else v))
either true x y front u v hx hy = hx
either false x y front u v hx hy = hy

append_from-fitting :
    (limit i : ℕ) (buffer text : Bytes)
    → length text < outbuffer_size
    → append_from limit i buffer text ≡ fitting (text ++ shown_from limit i buffer)
unfolding append_from shown_from
append_from-fitting limit i [] text h = sym (ap fitting (append-nil text) ∙ fitting-ok text h)
append_from-fitting limit i (b ∷ bs) text h =
    let shown = show_byte b in
    let rest = if above limit i then dots else shown_from limit (suc i) bs in
    let go : length (text ++ shown) < outbuffer_size
        → behind_byte limit i bs (text ++ shown) ≡ fitting ((text ++ shown) ++ rest) =
      λ fits.
        either (above limit i) _ _ (text ++ shown) dots (shown_from limit (suc i) bs)
          (append-fitting (text ++ shown) dots)
          (append_from-fitting limit (suc i) bs (text ++ shown) fits) in
    ap (λ o. o >>= behind_byte limit i bs) (append-fitting text shown)
    ∙ fitting-bind (text ++ shown) rest (behind_byte limit i bs) go
    ∙ ap fitting (append_assoc text shown rest)

-- The text of `trace_str` is that of `trace_buffer` without the line's end, if it has at most 255 bytes; a longer one is
-- written past the end of its buffer.
pub trace_str-trace_buffer :
    (buffer prompt text : Bytes) (limit : ℕ)
    → trace_buffer buffer prompt limit ≡ text ++ (10 ∷ [])
    → trace_str buffer prompt limit ≡ (if ltb (length text) 256 then ok text else fault)
unfolding trace_str trace_buffer
trace_str-trace_buffer buffer prompt text limit e =
    let head = heading prompt buffer in
    let shown = shown_from limit 0 buffer in
    let whole : head ++ shown ≡ text =
      line_injective (head ++ shown) text (append_assoc head shown (10 ∷ []) ∙ e) in
    ap (λ o. o >>= append_from limit 0 buffer) (append-fitting [] head)
    ∙ fitting-bind head shown (append_from limit 0 buffer) (append_from-fitting limit 0 buffer head)
    ∙ ap fitting whole

show_byte_bounded : (b : ℕ) → length (show_byte b) ≤ 4
unfolding show_byte
show_byte_bounded b = ground arith

-- From the byte `i` on, `limit + 2 - i` bytes are shown at most, and the dots.
shown_from_bounded :
    (limit i k : ℕ) (buffer : Bytes)
    → limit < 2 ^ 31
    → i + k ≡ limit + 2
    → 0 < k
    → length (shown_from limit i buffer) ≤ 4 * k + 3
unfolding shown_from
shown_from_bounded limit i k [] h e p = omega arith
shown_from_bounded limit i k (b ∷ bs) h e p =
    let rest = shown_from limit (suc i) bs in
    elim (Bool-cases (above limit i)) [
      | inl cut ↦
          rw cut (omega (lengths, show_byte_bounded b, length-append_bytes (show_byte b) dots))
      | inr on ↦
          let more = shown_from_bounded limit (suc i) (k - 1) bs h (omega arith) (ground arith) in
          rw on (omega (lengths, more, show_byte_bounded b, length-append_bytes (show_byte b) rest))
    ]

-- `trace_str` keeps within its buffer and gives the text of `trace_buffer`, whatever bytes it is given, when the limit
-- is not negative and four characters for each byte up to the limit, with 25 more, and the prompt have less than 256.
pub trace_str_fits :
    (buffer prompt : Bytes) (limit : ℕ)
    → limit < 2 ^ 31
    → length prompt + 4 * limit + 25 < 256
    → (text : Bytes) × (trace_str buffer prompt limit ≡ ok text)
      × (trace_buffer buffer prompt limit ≡ text ++ (10 ∷ []))
unfolding trace_buffer heading
trace_str_fits buffer prompt limit h room =
    let head = heading prompt buffer in
    let shown = shown_from limit 0 buffer in
    let whole : trace_buffer buffer prompt limit ≡ (head ++ shown) ++ (10 ∷ []) =
      sym (append_assoc head shown (10 ∷ [])) in
    let fits : length (head ++ shown) < 256 = omega (
      lengths,
      shown_from_bounded limit 0 (limit + 2) buffer h (omega arith) (omega arith),
      decimal_bounded (length buffer),
      length-append_bytes prompt (40 ∷ (decimal (length buffer) ++ (41 ∷ 32 ∷ []))),
      length-append_bytes (decimal (length buffer)) (41 ∷ 32 ∷ []),
      length-append_bytes head shown,
    ) in
    (
      head ++ shown,
      trace_str-trace_buffer buffer prompt (head ++ shown) limit whole
          ∙ fitting-ok (head ++ shown) fits,
      whole,
    )
