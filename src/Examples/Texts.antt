-- ===== src/Examples/Texts.antt =====
-- core/src/utils.c and core/src/amf.c: some bytes and values as text.
use rushkit.Base.{◌≡◌, refl, [], ◌∷◌, ◌++◌, Bytes, arith, length, ltb, if◌then◌else◌}
use rushkit.Base.Outcome.{ok, fault}
use rushkit.Base.Text.{decimal}
use rushkit.Amf.{Value, number, string, array, item, no_items}
use rushkit.Amf.Print as Print
use rushkit.Amf.Print.{amf_print, has_text, amf_print_faults}
use rushkit.Trace.{trace_buffer, trace_str, heading, shown_from, show_byte}
use rushkit.Trace.Laws.{trace_str-trace_buffer, trace_str_fits}

-- The bytes "A" and 10, with the prompt ">": `>(2) A\x0a`.
abbrev shown : Bytes
shown = 62 ∷ 40 ∷ 50 ∷ 41 ∷ 32 ∷ 65 ∷ 92 ∷ 120 ∷ 48 ∷ 97 ∷ []

shown_run : trace_buffer (65 ∷ 10 ∷ []) (62 ∷ []) 50 ≡ shown ++ (10 ∷ [])
unfolding trace_buffer heading shown_from show_byte decimal
shown_run = refl

trace_str-trace_buffer_example :
    trace_str (65 ∷ 10 ∷ []) (62 ∷ []) 50 ≡ (if ltb (length shown) 256 then ok shown else fault)
trace_str-trace_buffer_example = trace_str-trace_buffer (65 ∷ 10 ∷ []) (62 ∷ []) shown 50 shown_run

trace_str_fits_example :
    (text : Bytes) × (trace_str (65 ∷ 10 ∷ []) (62 ∷ []) 50 ≡ ok text)
    × (trace_buffer (65 ∷ 10 ∷ []) (62 ∷ []) 50 ≡ text ++ (10 ∷ []))
trace_str_fits_example = trace_str_fits (65 ∷ 10 ∷ []) (62 ∷ []) 50 (omega arith) (omega arith)

-- An array of a number and a string.
abbrev mixed : Value
mixed = array (item (number 5) (item (string (1 ∷ [])) no_items))

amf_print_faults_example :
    amf_print (λ d. []) mixed ≡ (if has_text mixed then fault else ok (Print.shown (λ d. []) mixed))
amf_print_faults_example = amf_print_faults (λ d. []) mixed
