-- ===== src/Amf/Pickler.antt =====
-- core/src/amf.c: the pickler's entry points, `amf_ap_read_next`, `amf_ap_read_arguments` and
-- `amf_ap_read_array`, the comparison of a string value, and the constructors of values.
pub mod Calls
use rushkit.Base.{
  ℕ, zero, suc, Bool, true, false, List, [], ◌∷◌, Bytes, length, ◌==◌, ◌&&◌, if◌then◌else◌,
}
use rushkit.Base.Outcome.{Outcome, ok, abort, fault, out_of_fuel, split_at, assert, ◌>>=◌, ◌>>◌}
use rushkit.Amf.{
  Value, Items, Table, number, boolean, string, hash, assoc_array, array, no_items, item, no_elems,
  elem, type_of, amf_string,
}
use rushkit.Amf.Decode.{amf_unpack, is_end}

module _ (small : Bool) where
  -- The value, and the pickler that is left.
  unfoldable pub amf_ap_read_next : Bytes → Outcome (Value × Bytes)
  amf_ap_read_next ap = do (v, _, ap') ← amf_unpack small ap; ok (v, ap')

  -- `while(!amf_ap_is_end(pap))` on fuel.
  unfoldable pub read_arguments_loop : ℕ → Bytes → Outcome (List Value)
  read_arguments_loop fuel [] = ok []
  read_arguments_loop zero (b ∷ ap) = out_of_fuel
  read_arguments_loop (suc fuel) (b ∷ ap) = do
    (v, _, ap') ← amf_unpack small (b ∷ ap)
    vs ← read_arguments_loop fuel ap'
    ok (v ∷ vs)

  -- Each round takes a byte at least.
  unfoldable pub amf_ap_read_arguments : Bytes → Outcome (List Value)
  amf_ap_read_arguments ap = read_arguments_loop (length ap) ap

  -- `while(1)` on fuel: up to a value of type AMF_END, which the end of the data yields as well.
  unfoldable pub read_array_loop : ℕ → Bytes → Outcome (List Value × Bytes)
  read_array_loop zero ap = out_of_fuel
  read_array_loop (suc fuel) ap = do
    (v, _, ap') ← amf_unpack small ap
    elim (is_end v) [
      | true ↦ ok ([], ap')
      | false ↦ do (vs, ap'') ← read_array_loop fuel ap'; ok (v ∷ vs, ap'')
    ]

  unfoldable pub amf_ap_read_array : Bytes → Outcome (List Value × Bytes)
  amf_ap_read_array ap = read_array_loop (suc (length ap)) ap

-- `memcmp(s, t, n) == 0` on strings of one length.
unfoldable pub same_bytes : Bytes → Bytes → Bool
same_bytes [] [] = true
same_bytes (a ∷ s) (b ∷ t) = a == b && same_bytes s t
same_bytes _ _ = false

-- The content of a string value; the assert fails on any other type.
unfoldable pub string_content : Value → Outcome Bytes
string_content (string s) = ok s
string_content _ = abort

-- A C string is given without its final zero byte.
unfoldable pub amf_string_equal : Value → Bytes → Outcome Bool
unfolding string_content same_bytes
amf_string_equal str_v other = do
  content ← string_content str_v
  ok (if length content == length other then same_bytes content other else false)

unfoldable pub amf_new_count_string : ℕ → Bytes → Outcome Bytes
amf_new_count_string count src = do (content, _) ← split_at count src; ok content

unfoldable pub amf_new_string : Bytes → Outcome Value
unfolding amf_new_count_string
amf_new_string src = do s ← amf_new_count_string (length src) src; ok (string s)

unfoldable pub amf_new_number : ℕ → Value
amf_new_number value = number value

unfoldable pub amf_new_bool : ℕ → Value
amf_new_bool value = boolean value

-- The elements of an array as a list.
unfoldable pub items_of : List Value → Items
items_of [] = no_items
items_of (v ∷ vs) = item v (items_of vs)

-- `count` elements are given as a list. The copy into the pool has the same elements.
unfoldable pub amf_new_array : List Value → Value
amf_new_array elements = array (items_of elements)

-- `count` keys, C strings, and as many values; a fault where fewer are given.
unfoldable pub amf_new_table_elem_list : ℕ → List Bytes → List Value → Outcome Table
amf_new_table_elem_list zero keys values = ok no_elems
amf_new_table_elem_list (suc count) (k ∷ keys) (v ∷ values) = do
  t ← amf_new_table_elem_list count keys values
  ok (elem k v t)
amf_new_table_elem_list (suc count) _ _ = fault

unfoldable pub amf_new_assoc_array : Table → Value
amf_new_assoc_array elements = assoc_array elements

unfoldable pub amf_new_hash : Table → Value
amf_new_hash elements = hash elements
