-- ===== src/Python/Nesting.antt =====
-- bindings/python/py_amf.c: the conversion of a Python object ends, if the object does not contain itself.
use rushkit.Base.{ℕ, zero, suc, ◌<◌, ◌≡◌, true, List, [], ◌∷◌, All, Bytes, arith, All-map}
use rushkit.Base.Outcome.{Outcome, Ensures, returned, faulted, Ensures-bind, Ensures-if}
use rushkit.Amf.{Value}
use rushkit.Python.{Python, fill_elems, pydict_2_hash, convert_items, pylist_2_array, py_2_av}

-- A measure that is smaller for each item of a list and each value of a dictionary.
pub record IsNesting (py : Python) (nesting : py.Obj → ℕ) : Type 0 where
  pub in_list :
      (o : py.Obj) → py.is_list o ≡ true → All (λ i. nesting i < nesting o) (py.list_items o)
  pub in_dict :
      (o : py.Obj) → py.is_dict o ≡ true → All (λ e. nesting e.1 < nesting o) (py.dict_items o)

-- A run that ends.
abbrev pub Ends {ℓ} : {A : Type ℓ} → Outcome A → Type ℓ
Ends r = Ensures (λ a. Unit {0}) r

module _ (py : Python) (blank_key : Bytes) (blank : Value)
    (convert : Value → py.Obj → Outcome Value) (P : py.Obj → Type 0)
    (ends : (dest : Value) (o : py.Obj) → P o → Ends (convert dest o)) where
  fill_elems-Ends :
      (n : ℕ) (entries : List (py.Obj × py.Obj))
      → All (λ e. P e.1) entries
      → Ends (fill_elems py blank_key blank convert n entries)
  unfolding fill_elems
  fill_elems-Ends zero [] h = returned tt
  fill_elems-Ends zero (e ∷ entries) h = faulted
  fill_elems-Ends (suc n) [] h = Ensures-bind (fill_elems-Ends n [] tt) (λ t _. returned tt)
  fill_elems-Ends (suc n) ((key, value) ∷ entries) (p, ps) =
      Ensures-bind {P = λ a. Unit {0}}
        (Ensures-if (py.is_string key) (λ _. Ensures-bind (ends blank value p) (λ v _. returned tt))
          (λ _. returned tt))
        (λ kv _. Ensures-bind (fill_elems-Ends n entries ps) (λ t _. returned tt))

  convert_items-Ends :
      (os : List py.Obj) → All P os → Ends (convert_items py blank_key blank convert os)
  unfolding convert_items
  convert_items-Ends [] h = returned tt
  convert_items-Ends (o ∷ os) (p, ps) =
      Ensures-bind (ends blank o p)
        (λ v _. Ensures-bind (convert_items-Ends os ps) (λ vs _. returned tt))

module _ (py : Python) (nesting : py.Obj → ℕ) (nests : IsNesting py nesting) (blank_key : Bytes)
    (blank : Value) where
  -- The conversion of an object ends, with fuel for the depth of its lists and dictionaries.
  pub py_2_av-Ends :
      (fuel : ℕ) (dest : Value) (pyobj : py.Obj)
      → nesting pyobj < fuel
      → Ends (py_2_av py fuel blank_key blank dest pyobj)
  unfolding py_2_av pydict_2_hash pylist_2_array
  py_2_av-Ends zero dest o h = absurd (omega arith)
  py_2_av-Ends (suc fuel) dest o h =
      Ensures-if (py.is_dict o)
        (λ e.
          Ensures-bind
            (fill_elems-Ends py blank_key blank (py_2_av py fuel blank_key blank)
              (λ c. nesting c < fuel) (λ d c. py_2_av-Ends fuel d c) (py.dict_size o)
              (py.dict_items o)
              (All-map (λ c r. omega (arith, h, r)) (py.dict_items o) (nests.in_dict o e)))
            (λ t _. returned tt))
        (λ _.
          Ensures-if (py.is_list o)
            (λ e.
              Ensures-bind
                (convert_items-Ends py blank_key blank (py_2_av py fuel blank_key blank)
                  (λ c. nesting c < fuel) (λ d c. py_2_av-Ends fuel d c) (py.list_items o)
                  (All-map (λ c r. omega (arith, h, r)) (py.list_items o) (nests.in_list o e)))
                (λ t _. returned tt))
            (λ _.
              Ensures-if (py.is_string o) (λ _. returned tt)
                (λ _.
                  Ensures-if (py.is_bool o) (λ _. returned tt)
                    (λ _. Ensures-if (py.is_float o) (λ _. returned tt) (λ _. returned tt)))))
