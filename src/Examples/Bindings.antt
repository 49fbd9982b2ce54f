-- ===== src/Examples/Bindings.antt =====
-- bindings/python/py_amf.c and bindings/python/pyrushkit.c with some Python objects as a data type.
use rushkit.Base.{
  ℕ, suc, ◌+◌, ◌<◌, ◌≡◌, refl, Bool, true, List, [], ◌∷◌, ◌++◌, some, All, All-map, false, Bytes,
  arith, length, ◌^◌, lengths,
}
use rushkit.Base.Outcome.{ok}
use rushkit.Amf.{
  Value, Table, number, string, hash, plain, assoc_array, array, no_items, item, no_elems, elem,
  amf_nil,
}
use rushkit.Amf.Valid.{IsValid}
use rushkit.Amf.Encode.{pack_values}
use rushkit.Amf.Encode.Size.{byte_count, byte_count_lem, amf_pack_call_lem}
use rushkit.Session.{Packet, Proto}
use rushkit.Protocol.Handlers.{take_request_id, default_on_packet_invoke}
use rushkit.Protocol.Lifetime.{rtmp_proto_get_user_data}
use rushkit.Python.{Python, av_2_py, py_2_av}
use rushkit.Python.Convert.{IsLawful, IsPlain, depth, py_2_av-av_2_py, py_2_av-av_2_py_table}
use rushkit.Python.Nesting.{IsNesting, Ends, py_2_av-Ends}
use rushkit.Python.Responder.{
  Interpreter, handle_invoke, get_member, method_table, default_on_packet_invoke-on_py_amf_call,
}
use rushkit.Examples.Packets.{proto}

-- Lists and dictionaries grow at their end.
data PyObject : Type 0 where
  nothing : PyObject
  float_object int_object : ℕ → PyObject
  string_object : Bytes → PyObject
  empty_list empty_dict : PyObject
  appended : PyObject → PyObject → PyObject
  with_item : PyObject → PyObject → PyObject → PyObject

abbrev py_is_list : PyObject → Bool
py_is_list empty_list = true
py_is_list (appended l x) = true
py_is_list _ = false

abbrev py_is_dict : PyObject → Bool
py_is_dict empty_dict = true
py_is_dict (with_item d k v) = true
py_is_dict _ = false

abbrev py_is_string : PyObject → Bool
py_is_string (string_object s) = true
py_is_string _ = false

abbrev py_is_float : PyObject → Bool
py_is_float (float_object d) = true
py_is_float _ = false

abbrev py_list_items : PyObject → List PyObject
py_list_items (appended l x) = py_list_items l ++ (x ∷ [])
py_list_items _ = []

abbrev py_dict_items : PyObject → List (PyObject × PyObject)
py_dict_items (with_item d k v) = py_dict_items d ++ ((k, v) ∷ [])
py_dict_items _ = []

abbrev py_string_bytes : PyObject → Bytes
py_string_bytes (string_object s) = s
py_string_bytes _ = []

abbrev py_float_value : PyObject → ℕ
py_float_value (float_object d) = d
py_float_value _ = 0

abbrev py : Python
py = record {
  Obj = PyObject;
  none_object = nothing;
  float_from = float_object;
  int_from = int_object;
  string_from = string_object;
  list_new = empty_list;
  list_append = appended;
  dict_new = empty_dict;
  dict_set_item = with_item;
  is_dict = py_is_dict;
  is_list = py_is_list;
  is_string = py_is_string;
  is_bool = λ o. false;
  is_float = py_is_float;
  is_true = λ o. false;
  dict_size = λ o. length (py_dict_items o);
  dict_items = py_dict_items;
  list_items = py_list_items;
  string_bytes = py_string_bytes;
  float_value = py_float_value;
}

no_dict : (l : PyObject) → py_is_list l ≡ true → py_is_dict l ≡ false
no_dict nothing h = refl
no_dict (float_object d) h = refl
no_dict (int_object n) h = refl
no_dict (string_object s) h = refl
no_dict empty_list h = refl
no_dict empty_dict h = absurd (cc)
no_dict (appended l x) h = refl
no_dict (with_item d k v) h = absurd (cc)

py-IsLawful : IsLawful py
py-IsLawful = record {
  none_no_dict = refl;
  none_no_list = refl;
  none_no_string = refl;
  none_no_bool = refl;
  none_no_float = refl;
  float_no_dict = λ d. refl;
  float_no_list = λ d. refl;
  float_no_string = λ d. refl;
  float_no_bool = λ d. refl;
  float_is_float = λ d. refl;
  float_read = λ d. refl;
  string_no_dict = λ s. refl;
  string_no_list = λ s. refl;
  string_is_string = λ s. refl;
  string_read = λ s. refl;
  list_is_new = (refl, refl);
  new_is_empty = refl;
  list_is_appended = λ l x h. (refl, refl);
  list_no_dict = no_dict;
}

-- A list of a number and a list.
abbrev nested : Value
nested = array (item (number 5) (item (array (item (string (1 ∷ 2 ∷ [])) no_items)) no_items))

nested-IsPlain : IsPlain nested
unfolding IsPlain
nested-IsPlain = (tt, ((tt, tt), tt))

nested_shallow : depth nested < 10
unfolding depth
nested_shallow = omega arith

py_2_av-av_2_py_example :
    py_2_av py 10 [] (number 0) (plain amf_nil) (av_2_py py nested) ≡ ok nested
py_2_av-av_2_py_example =
    py_2_av-av_2_py py py-IsLawful [] (number 0) nested 10 (plain amf_nil) nested-IsPlain
      nested_shallow

abbrev one_entry : Table
one_entry = elem (97 ∷ []) (number 5) no_elems

py_2_av-av_2_py_table_example :
    (av_2_py py (hash one_entry) ≡ nothing)
    × (av_2_py py (assoc_array one_entry) ≡ nothing)
    × (py_2_av py 1 [] (number 0) (number 7) (av_2_py py (hash one_entry)) ≡ ok (number 7))
    × (py_2_av py 1 [] (number 0) (number 7) (av_2_py py (assoc_array one_entry)) ≡ ok (number 7))
py_2_av-av_2_py_table_example =
    py_2_av-av_2_py_table py py-IsLawful [] (number 0) one_entry 0 (number 7)

abbrev nesting : PyObject → ℕ
nesting (appended l x) = suc (nesting l + nesting x)
nesting (with_item d k v) = suc (nesting d + nesting v)
nesting _ = 0

All-snoc {ℓ κ} :
    {A : Type ℓ} (P : A → Type κ) (xs : List A) (x : A) → All P xs → P x → All P (xs ++ (x ∷ []))
All-snoc P [] x h p = (p, tt)
All-snoc P (y ∷ xs) x (h, hs) p = (h, All-snoc P xs x hs p)

items_nest : (o : PyObject) → All (λ i. nesting i < nesting o) (py_list_items o)
items_nest (appended l x) =
    All-snoc (λ i. nesting i < nesting (appended l x)) (py_list_items l) x
      (All-map (λ i h. omega (arith, h)) (py_list_items l) (items_nest l)) (omega arith)
items_nest nothing = tt
items_nest (float_object d) = tt
items_nest (int_object n) = tt
items_nest (string_object s) = tt
items_nest empty_list = tt
items_nest empty_dict = tt
items_nest (with_item d k v) = tt

entries_nest : (o : PyObject) → All (λ e. nesting e.1 < nesting o) (py_dict_items o)
entries_nest (with_item d k v) =
    All-snoc (λ e. nesting e.1 < nesting (with_item d k v)) (py_dict_items d) (k, v)
      (All-map (λ e h. omega (arith, h)) (py_dict_items d) (entries_nest d)) (omega arith)
entries_nest nothing = tt
entries_nest (float_object d) = tt
entries_nest (int_object n) = tt
entries_nest (string_object s) = tt
entries_nest empty_list = tt
entries_nest empty_dict = tt
entries_nest (appended l x) = tt

py-IsNesting : IsNesting py nesting
py-IsNesting = record { in_list = λ o h. items_nest o; in_dict = λ o h. entries_nest o }

-- {"a": [5]}
abbrev dictionary : PyObject
dictionary = with_item empty_dict (string_object (97 ∷ [])) (appended empty_list (float_object 5))

py_2_av-Ends_example : Ends (py_2_av py 3 [] (number 0) (number 0) dictionary)
py_2_av-Ends_example =
    py_2_av-Ends py nesting py-IsNesting [] (number 0) 3 (number 0) dictionary (omega arith)

-- Every object has every method, and a call does nothing.
abbrev host : Interpreter py
host = record {
  object_at = int_object;
  get_attr = λ o name. some (string_object name);
  call_object = λ f args p. ok p;
  long_from = int_object;
}

-- A connection whose host stands at the address 5, and a call of "hi" with one argument.
abbrev hosted : Proto
hosted = record proto { user_data = 5 }

abbrev hi : Bytes
hi = 104 ∷ 105 ∷ []

abbrev arguments : List Value
arguments = number 5 ∷ []

arguments-IsValid : All IsValid arguments
unfolding IsValid
arguments-IsValid = ground arith

abbrev call : Packet
call = record {
  channel_id = 3;
  channel = record { used = 1; timer = 0; size = 0; data_type = 20; stream_id = 0 };
  payload = pack_values true (string hi ∷ number 2 ∷ plain amf_nil ∷ arguments);
}

host_known :
    get_member py host (take_request_id hosted false 2) handle_invoke
    ≡ ok (some (string_object handle_invoke))
unfolding get_member take_request_id rtmp_proto_get_user_data
host_known = refl

call_short : length (pack_values true (string hi ∷ number 2 ∷ plain amf_nil ∷ arguments)) < 2 ^ 31
unfolding pack_values byte_count
call_short = omega (
  lengths,
  byte_count_lem true (string hi),
  byte_count_lem true (number 2),
  byte_count_lem true (plain amf_nil),
  byte_count_lem true (number 5),
)

default_on_packet_invoke-on_py_amf_call_example :
    default_on_packet_invoke true (method_table py host) 0 (λ n. n) (λ n. n) hosted call
    ≡ ok (take_request_id hosted false 2)
default_on_packet_invoke-on_py_amf_call_example =
    default_on_packet_invoke-on_py_amf_call py host true 0 (λ n. n) (λ n. n) hosted call hi 2
      arguments (string_object handle_invoke) (amf_pack_call_lem true hi 2 arguments call_short)
      (λ e. cc) (λ e. cc) (omega arith) (omega arith) arguments-IsValid host_known
