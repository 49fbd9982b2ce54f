-- ===== src/Examples/Wire.antt =====
-- core/src/utils.c on concrete words.
use rushkit.Base.{◌≡◌, true}
use rushkit.Word.{pack_short, pack_long}
use rushkit.Word.Wire.{big_endian}
use rushkit.Word.Pack.{pack_big_endian}

pack_big_endian_example :
    (pack_short true 258 ≡ big_endian 2 258) × (pack_long true 258 ≡ big_endian 4 258)
pack_big_endian_example = pack_big_endian true 258
