-- ===== src/Python.antt =====
-- bindings/python/py_amf.c: AMF values as Python objects, and back. Reference counts are not followed.
pub mod Convert
pub mod Nesting
pub mod Responder
use rushkit.Base.{
  ℕ, zero, suc, ◌+◌, ◌-◌, ◌^◌, Bool, true, false, List, [], ◌∷◌, Option, Bytes, if◌then◌else◌,
}
use rushkit.Base.Outcome.{Outcome, ok, fault, out_of_fuel, ◌>>=◌}
use rushkit.Word.{short_to_int}
use rushkit.Amf.{
  Value, Items, Table, number, boolean, string, hash, plain, link, assoc_array, array, no_items,
  item, no_elems, elem,
}
use rushkit.Amf.Pickler.{amf_new_bool, amf_new_number, amf_new_array, amf_new_hash}

-- What the bindings call of Python's C interface, with an object as a value: a call that changes a dictionary or a list
-- returns it. `dict_items` are the pairs that PyDict_Next goes through, `is_true` is the comparison with Py_True.
pub record Python : Type 1 where
  pub Obj : Type 0
  pub none_object : Obj
  pub float_from : ℕ → Obj
  pub int_from : ℕ → Obj
  pub string_from : Bytes → Obj
  pub list_new : Obj
  pub list_append : Obj → Obj → Obj
  pub dict_new : Obj
  pub dict_set_item : Obj → Obj → Obj → Obj
  pub is_dict : Obj → Bool
  pub is_list : Obj → Bool
  pub is_string : Obj → Bool
  pub is_bool : Obj → Bool
  pub is_float : Obj → Bool
  pub is_true : Obj → Bool
  pub dict_size : Obj → ℕ
  pub dict_items : Obj → List (Obj × Obj)
  pub list_items : Obj → List Obj
  pub string_bytes : Obj → Bytes
  pub float_value : Obj → ℕ

module _ (py : Python) where
  unfoldable mutual
    -- The loop of `av_table_2_py`. The dictionary is built, and Py_None is returned in its place.
    pub set_items : py.Obj → Table → py.Obj
    set_items pdict no_elems = pdict
    set_items pdict (elem k v table) =
        set_items (py.dict_set_item pdict (py.string_from k) (av_2_py v)) table

    -- The loop of `av_list_2_py`.
    pub append_items : py.Obj → Items → py.Obj
    append_items plist no_items = plist
    append_items plist (item v xs) = append_items (py.list_append plist (av_2_py v)) xs

    pub av_2_py : Value → py.Obj
    av_2_py (number d) = py.float_from d
    av_2_py (boolean b) = py.int_from b
    av_2_py (string s) = py.string_from s
    av_2_py (hash t) = let pdict = set_items py.dict_new t in py.none_object
    av_2_py (assoc_array t) = let pdict = set_items py.dict_new t in py.none_object
    av_2_py (array xs) = append_items py.list_new xs
    av_2_py (link n) = py.int_from (short_to_int n)
    av_2_py (plain c) = py.none_object

  unfoldable pub av_table_2_py : Table → py.Obj
  av_table_2_py table = let pdict = set_items py.dict_new table in py.none_object

  unfoldable pub av_list_2_py : Items → py.Obj
  av_list_2_py xs = append_items py.list_new xs

  -- The key is copied into the pool.
  unfoldable pub pyobj_2_string : py.Obj → Bytes
  pyobj_2_string pyobj = py.string_bytes pyobj

  -- `blank_key` and `blank` are what a new element of an array holds, whose memory is not cleared, and `convert` is
  -- `py_2_av`.
  module _ (blank_key : Bytes) (blank : Value) (convert : Value → py.Obj → Outcome Value) where
    -- The next `n` elements of the table; a key that is no string leaves its element as it was.
    unfoldable pub fill_elems : ℕ → List (py.Obj × py.Obj) → Outcome Table
    unfolding pyobj_2_string
    fill_elems zero [] = ok no_elems
    fill_elems zero (e ∷ entries) = fault
    fill_elems (suc n) [] = do t ← fill_elems n []; ok (elem blank_key blank t)
    fill_elems (suc n) ((key, value) ∷ entries) = do
      (k, v) ←
          if py.is_string key
          then (do v ← convert blank value; ok (pyobj_2_string key, v))
          else ok (blank_key, blank)
      t ← fill_elems n entries
      ok (elem k v t)

    unfoldable pub pydict_2_hash : py.Obj → Outcome Value
    unfolding fill_elems
    pydict_2_hash pyobj = do
      elements ← fill_elems (py.dict_size pyobj) (py.dict_items pyobj)
      ok (amf_new_hash elements)

    unfoldable pub convert_items : List py.Obj → Outcome (List Value)
    convert_items [] = ok []
    convert_items (o ∷ os) = do v ← convert blank o; vs ← convert_items os; ok (v ∷ vs)

    unfoldable pub pylist_2_array : py.Obj → Outcome Value
    unfolding convert_items
    pylist_2_array pyobj = do
      elements ← convert_items (py.list_items pyobj)
      ok (amf_new_array elements)

  -- The argument `type`, which all callers give as 0, is left out; `dest` is what stands at the
  -- destination. The fuel bounds how deep the objects nest.
  unfoldable pub py_2_av : ℕ → Bytes → Value → Value → py.Obj → Outcome Value
  unfolding pydict_2_hash pylist_2_array pyobj_2_string
  py_2_av zero blank_key blank dest pyobj = out_of_fuel
  py_2_av (suc fuel) blank_key blank dest pyobj =
      if py.is_dict pyobj
      then pydict_2_hash blank_key blank (py_2_av fuel blank_key blank) pyobj
      else if py.is_list pyobj
      then pylist_2_array blank_key blank (py_2_av fuel blank_key blank) pyobj
      else if py.is_string pyobj
      then ok (string (pyobj_2_string pyobj))
      else if py.is_bool pyobj
      then ok (amf_new_bool (if py.is_true pyobj then 1 else 0))
      else if py.is_float pyobj
      then ok (amf_new_number (py.float_value pyobj))
      else ok dest
