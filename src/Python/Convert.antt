-- ===== src/Python/Convert.antt =====
-- bindings/python/py_amf.c: what is kept when a value goes to Python and comes back.
use rushkit.Base.{
  ℕ, zero, suc, ◌+◌, ◌<◌, ◌≡◌, refl, sym, ap, ◌∙◌, true, false, List, [], ◌∷◌, ◌++◌, append_assoc,
  append-nil, Bytes, arith,
}
use rushkit.Base.Outcome.{ok}
use rushkit.Amf.{
  Value, Items, Table, number, boolean, string, hash, plain, link, assoc_array, array, no_items,
  item,
}
use rushkit.Amf.Pickler.{items_of, amf_new_array, amf_new_number}
use rushkit.Python.{
  Python, append_items, av_2_py, pyobj_2_string, convert_items, pylist_2_array, py_2_av,
}

-- Python's rules: which test an object passes, and what can be read back from it.
pub record IsLawful (py : Python) : Type 0 where
  pub none_no_dict : py.is_dict py.none_object ≡ false
  pub none_no_list : py.is_list py.none_object ≡ false
  pub none_no_string : py.is_string py.none_object ≡ false
  pub none_no_bool : py.is_bool py.none_object ≡ false
  pub none_no_float : py.is_float py.none_object ≡ false
  pub float_no_dict : (d : ℕ) → py.is_dict (py.float_from d) ≡ false
  pub float_no_list : (d : ℕ) → py.is_list (py.float_from d) ≡ false
  pub float_no_string : (d : ℕ) → py.is_string (py.float_from d) ≡ false
  pub float_no_bool : (d : ℕ) → py.is_bool (py.float_from d) ≡ false
  pub float_is_float : (d : ℕ) → py.is_float (py.float_from d) ≡ true
  pub float_read : (d : ℕ) → py.float_value (py.float_from d) ≡ d
  pub string_no_dict : (s : Bytes) → py.is_dict (py.string_from s) ≡ false
  pub string_no_list : (s : Bytes) → py.is_list (py.string_from s) ≡ false
  pub string_is_string : (s : Bytes) → py.is_string (py.string_from s) ≡ true
  pub string_read : (s : Bytes) → py.string_bytes (py.string_from s) ≡ s
  pub list_is_new : (py.is_dict py.list_new ≡ false) × (py.is_list py.list_new ≡ true)
  pub new_is_empty : py.list_items py.list_new ≡ []
  pub list_is_appended :
      (l x : py.Obj)
      → py.is_list l ≡ true
      → (py.is_list (py.list_append l x) ≡ true)
        × (py.list_items (py.list_append l x) ≡ py.list_items l ++ (x ∷ []))
  pub list_no_dict : (l : py.Obj) → py.is_list l ≡ true → py.is_dict l ≡ false

-- The values that have a Python type of their own: numbers, strings, and arrays of these.
unfoldable mutual
  pub IsPlain : Value → Type 0
  IsPlain (number d) = Unit
  IsPlain (string s) = Unit
  IsPlain (array xs) = ArePlain xs
  IsPlain (boolean b) = ⊥
  IsPlain (hash t) = ⊥
  IsPlain (assoc_array t) = ⊥
  IsPlain (link n) = ⊥
  IsPlain (plain c) = ⊥

  pub ArePlain : Items → Type 0
  ArePlain no_items = Unit
  ArePlain (item v xs) = IsPlain v × ArePlain xs

-- How deep the arrays nest, at most: one for each array and element.
unfoldable mutual
  pub depth : Value → ℕ
  depth (array xs) = suc (items_depth xs)
  depth _ = 0

  pub items_depth : Items → ℕ
  items_depth no_items = 0
  items_depth (item v xs) = depth v + items_depth xs

-- The objects of a list of values.
unfoldable pub objects : (py : Python) → Items → List py.Obj
objects py no_items = []
objects py (item v xs) = av_2_py py v ∷ objects py xs

-- The items of a value array as a list.
unfoldable pub values : Items → List Value
values no_items = []
values (item v xs) = v ∷ values xs

items_of-values : (xs : Items) → items_of (values xs) ≡ xs
unfolding items_of values
items_of-values no_items = refl
items_of-values (item v xs) = ap (item v) (items_of-values xs)

module _ (py : Python) (laws : IsLawful py) where
  append_items_lem :
      (xs : Items) (l : py.Obj)
      → py.is_list l ≡ true
      → (py.is_list (append_items py l xs) ≡ true)
        × (py.list_items (append_items py l xs) ≡ py.list_items l ++ objects py xs)
  unfolding append_items objects
  append_items_lem no_items l h = (h, sym (append-nil (py.list_items l)))
  append_items_lem (item v xs) l h =
      let (still, grown) = laws.list_is_appended l (av_2_py py v) h in
      let (after, whole) = append_items_lem xs (py.list_append l (av_2_py py v)) still in
      (
        after,
        whole
            ∙ ap (λ r. r ++ objects py xs) grown
            ∙ append_assoc (py.list_items l) (av_2_py py v ∷ []) (objects py xs),
      )

  module _ (blank_key : Bytes) (blank : Value) where
    number_back :
        (fuel : ℕ) (dest : Value) (d : ℕ)
        → py_2_av py (suc fuel) blank_key blank dest (py.float_from d) ≡ ok (number d)
    unfolding py_2_av amf_new_number
    number_back fuel dest d =
        rw
          (
            laws.float_no_dict d,
            laws.float_no_list d,
            laws.float_no_string d,
            laws.float_no_bool d,
            laws.float_is_float d,
            laws.float_read d,
          )
          refl

    string_back :
        (fuel : ℕ) (dest : Value) (s : Bytes)
        → py_2_av py (suc fuel) blank_key blank dest (py.string_from s) ≡ ok (string s)
    unfolding py_2_av pyobj_2_string
    string_back fuel dest s =
        rw
          (
            laws.string_no_dict s,
            laws.string_no_list s,
            laws.string_is_string s,
            laws.string_read s,
          )
          refl

    list_back :
        (fuel : ℕ) (dest : Value) (l : py.Obj) (vs : List Value)
        → py.is_list l ≡ true
        → convert_items py blank_key blank (py_2_av py fuel blank_key blank) (py.list_items l)
          ≡ ok vs
        → py_2_av py (suc fuel) blank_key blank dest l ≡ ok (amf_new_array vs)
    unfolding py_2_av pylist_2_array
    list_back fuel dest l vs h e = rw (laws.list_no_dict l h, h, e) refl

    none_back :
        (fuel : ℕ) (dest : Value)
        → py_2_av py (suc fuel) blank_key blank dest py.none_object ≡ ok dest
    unfolding py_2_av
    none_back fuel dest =
        rw
          (
            laws.none_no_dict, laws.none_no_list, laws.none_no_string, laws.none_no_bool,
            laws.none_no_float,
          )
          refl

    mutual
      unfolding IsPlain depth av_2_py amf_new_array convert_items objects values

      back :
          (v : Value) (fuel : ℕ) (dest : Value)
          → IsPlain v
          → depth v < fuel
          → py_2_av py fuel blank_key blank dest (av_2_py py v) ≡ ok v
      back v zero dest p h = absurd (omega arith)
      back (number d) (suc fuel) dest p h = number_back fuel dest d
      back (string s) (suc fuel) dest p h = string_back fuel dest s
      back (array xs) (suc fuel) dest p h =
          let (is_list, whole) = append_items_lem xs py.list_new laws.list_is_new.1 in
          list_back fuel dest (append_items py py.list_new xs) (values xs) is_list (
            ap (convert_items py blank_key blank (py_2_av py fuel blank_key blank))
              (whole ∙ ap (λ r. r ++ objects py xs) laws.new_is_empty)
            ∙ items_back xs fuel p (omega arith))
          ∙ ap (λ r. ok (array r)) (items_of-values xs)
      back (boolean b) (suc fuel) dest p h = absurd p
      back (hash t) (suc fuel) dest p h = absurd p
      back (assoc_array t) (suc fuel) dest p h = absurd p
      back (link n) (suc fuel) dest p h = absurd p
      back (plain c) (suc fuel) dest p h = absurd p

      items_back :
          (xs : Items) (fuel : ℕ)
          → ArePlain xs
          → items_depth xs < fuel
          → convert_items py blank_key blank (py_2_av py fuel blank_key blank) (objects py xs)
            ≡ ok (values xs)
      items_back no_items fuel p h = refl
      items_back (item v xs) fuel (p, ps) h =
          let e = back v fuel blank p (omega arith) in
          let es = items_back xs fuel ps (omega arith) in rw (e, es) refl

    -- A number, a string, or an array of such values, of any depth, is the same after it has been to Python and back,
    -- with fuel for its depth.
    pub py_2_av-av_2_py :
        (v : Value) (fuel : ℕ) (dest : Value)
        → IsPlain v
        → depth v < fuel
        → py_2_av py fuel blank_key blank dest (av_2_py py v) ≡ ok v
    py_2_av-av_2_py v fuel dest p h = back v fuel dest p h

    -- A hash or an associative array is lost in Python: it arrives as None, and what comes back is not a table but
    -- whatever stood at the destination before.
    pub py_2_av-av_2_py_table :
        (t : Table) (fuel : ℕ) (dest : Value)
        → (av_2_py py (hash t) ≡ py.none_object)
          × (av_2_py py (assoc_array t) ≡ py.none_object)
          × (py_2_av py (suc fuel) blank_key blank dest (av_2_py py (hash t)) ≡ ok dest)
          × (py_2_av py (suc fuel) blank_key blank dest (av_2_py py (assoc_array t)) ≡ ok dest)
    unfolding av_2_py
    py_2_av-av_2_py_table t fuel dest = (refl, refl, none_back fuel dest, none_back fuel dest)
