-- ===== src/Examples/Values.antt =====
-- core/src/amf.c on concrete values.
use rushkit.Base.{◌%◌, ◌^◌, length, ◌≡◌, true, List, [], ◌∷◌, ◌++◌, arith, Bytes, length}
use rushkit.Base.Outcome.{ok, Ensures}
use rushkit.Amf.{
  Value, number, boolean, string, assoc_array, hash, array, plain, link, no_items, item, no_elems,
  elem, amf_nil, items_size, table_size, type_of,
}
use rushkit.Amf.Valid.{IsValid}
use rushkit.Amf.Encode.{amf_pack, amf_get_pack_size}
use rushkit.Amf.Encode.Size.{length-amf_pack}
use rushkit.Amf.Decode.{amf_unpack}
use rushkit.Amf.Decode.Consume.{Consumes, amf_unpack-Ensures}
use rushkit.Amf.Decode.RoundTrip.{amf_unpack-amf_pack}

-- A table with a number, a string and an array of two values.
abbrev sample : Value
sample = assoc_array (
    elem (97 ∷ []) (number 5) (
      elem (98 ∷ []) (array (item (boolean 1) (item (link 7) no_items)))
        (elem (99 ∷ []) (hash (elem (100 ∷ []) (string (104 ∷ 105 ∷ [])) no_elems)) no_elems)))

sample-IsValid : IsValid sample
unfolding IsValid table_size items_size type_of
sample-IsValid = ground arith

abbrev values : List Value
values = sample ∷ plain amf_nil ∷ []

abbrev connect : Bytes
connect = 99 ∷ 111 ∷ 110 ∷ []

amf_unpack-amf_pack_example :
    amf_unpack true (amf_pack true sample ++ (1 ∷ 2 ∷ []))
    ≡ ok (sample, length (amf_pack true sample), 1 ∷ 2 ∷ [])
amf_unpack-amf_pack_example = amf_unpack-amf_pack true sample (1 ∷ 2 ∷ []) sample-IsValid

amf_unpack-Ensures_example : Ensures (Consumes (3 ∷ 0 ∷ 1 ∷ [])) (amf_unpack true (3 ∷ 0 ∷ 1 ∷ []))
amf_unpack-Ensures_example = amf_unpack-Ensures true (3 ∷ 0 ∷ 1 ∷ [])

length-amf_pack_example : amf_get_pack_size sample ≡ length (amf_pack true sample) % 2 ^ 32
length-amf_pack_example = length-amf_pack true sample
