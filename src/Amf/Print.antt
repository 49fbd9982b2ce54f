-- ===== src/Amf/Print.antt =====
-- core/src/amf.c: the `amf_print` family, as the text that goes to the output. `%f` is a parameter.
use rushkit.Base.{
  ℕ, ◌≡◌, refl, ap, Bool, true, false, [], ◌∷◌, ◌++◌, Option, none, some, Bytes, Bool-cases, inl,
  List, append-nil, if-true, if-false, ◌∙◌, inr, ◌==◌, ◌||◌, if◌then◌else◌,
}
use rushkit.Base.Outcome.{Outcome, ok, fault, ◌>>=◌}
use rushkit.Base.Text.{decimal}
use rushkit.Word.{short_to_int}
use rushkit.Amf.{
  Value, Items, Table, number, boolean, string, hash, plain, link, assoc_array, array, no_items,
  item, no_elems, elem,
}

-- A block from `ALLOC`, or `none` behind its `RELEASE`.
abbrev release : Option Bytes → Option Bytes
release block = none

-- `printf(buffer)`: the text up to a zero byte, which the memory has to hold.
abbrev printf : Option Bytes → Outcome Bytes
printf none = fault
printf (some text) = ok text

-- The buffer with the quoted text is released before it is printed.
unfoldable pub amf_print_string : Bytes → Outcome Bytes
amf_print_string pstr = let buffer = some (34 ∷ (pstr ++ (34 ∷ 0 ∷ []))) in printf (release buffer)

-- `"=>"` and `", "`
abbrev arrow : Bytes
arrow = 61 ∷ 62 ∷ []

abbrev comma : Bytes
comma = 44 ∷ 32 ∷ []

-- A name with something in parentheses, or anything else between two brackets.
abbrev between : Bytes → Bytes → Bytes → Bytes
between front text back = front ++ (text ++ back)

-- "hash(", "assoc(", "link(", "amf(", "true" and "false"
abbrev hash_name : Bytes
hash_name = 104 ∷ 97 ∷ 115 ∷ 104 ∷ 40 ∷ []

abbrev assoc_name : Bytes
assoc_name = 97 ∷ 115 ∷ 115 ∷ 111 ∷ 99 ∷ 40 ∷ []

abbrev link_name : Bytes
link_name = 108 ∷ 105 ∷ 110 ∷ 107 ∷ 40 ∷ []

abbrev amf_name : Bytes
amf_name = 97 ∷ 109 ∷ 102 ∷ 40 ∷ []

abbrev true_name : Bytes
true_name = 116 ∷ 114 ∷ 117 ∷ 101 ∷ []

abbrev false_name : Bytes
false_name = 102 ∷ 97 ∷ 108 ∷ 115 ∷ 101 ∷ []

abbrev is_last_item : Items → Bool
is_last_item no_items = true
is_last_item (item v xs) = false

abbrev is_last_elem : Table → Bool
is_last_elem no_elems = true
is_last_elem (elem k v t) = false

module _ (format_double : ℕ → Bytes) where
  unfoldable mutual
    unfolding amf_print_string

    pub amf_print : Value → Outcome Bytes
    amf_print (number d) = ok (format_double d)
    amf_print (boolean b) = ok (if b == 0 then false_name else true_name)
    amf_print (string s) = amf_print_string s
    amf_print (assoc_array t) = do text ← print_elems t; ok (between assoc_name text (41 ∷ []))
    amf_print (hash t) = do text ← print_elems t; ok (between hash_name text (41 ∷ []))
    amf_print (array xs) = do text ← print_items xs; ok (between (91 ∷ []) text (93 ∷ []))
    amf_print (link n) = ok (between link_name (decimal (short_to_int n)) (41 ∷ []))
    amf_print (plain c) = ok (between amf_name (decimal c) (41 ∷ []))

    -- The loop of `amf_print_array`.
    pub print_items : Items → Outcome Bytes
    print_items no_items = ok []
    print_items (item v xs) = do
      text ← amf_print v
      rest ← print_items xs
      ok (text ++ ((if is_last_item xs then [] else comma) ++ rest))

    -- The loop of `amf_print_hash` and of `amf_print_assoc_array`.
    pub print_elems : Table → Outcome Bytes
    print_elems no_elems = ok []
    print_elems (elem k v t) = do
      key ← amf_print_string k
      text ← amf_print v
      rest ← print_elems t
      ok (key ++ (arrow ++ (text ++ ((if is_last_elem t then [] else comma) ++ rest))))

-- Whether a value has a string in it: as itself, in an array, or as the key of a table.
unfoldable mutual
  pub has_text : Value → Bool
  has_text (string s) = true
  has_text (hash t) = has_keys t
  has_text (assoc_array t) = has_keys t
  has_text (array xs) = items_have_text xs
  has_text _ = false

  pub items_have_text : Items → Bool
  items_have_text no_items = false
  items_have_text (item v xs) = has_text v || items_have_text xs

  pub has_keys : Table → Bool
  has_keys no_elems = false
  has_keys (elem k v t) = true

-- Texts with a comma and a space between each two.
unfoldable pub separated : List Bytes → Bytes
separated [] = []
separated (text ∷ []) = text
separated (text ∷ next ∷ rest) = text ++ (comma ++ separated (next ∷ rest))

module _ (format_double : ℕ → Bytes) where
  -- The text of a value without strings, which has no elements in a table.
  unfoldable mutual
    pub shown : Value → Bytes
    shown (number d) = format_double d
    shown (boolean b) = if b == 0 then false_name else true_name
    shown (string s) = []
    shown (hash t) = hash_name ++ (41 ∷ [])
    shown (assoc_array t) = assoc_name ++ (41 ∷ [])
    shown (array xs) = 91 ∷ (separated (texts xs) ++ (93 ∷ []))
    shown (link n) = link_name ++ (decimal (short_to_int n) ++ (41 ∷ []))
    shown (plain c) = amf_name ++ (decimal c ++ (41 ∷ []))

    pub texts : Items → List Bytes
    texts no_items = []
    texts (item v xs) = shown v ∷ texts xs

  -- A run of the code that reads memory that was given back if there is text, and else prints this.
  abbrev pub printed_unless : Bool → Bytes → Outcome Bytes
  printed_unless text out = if text then fault else ok out

  one_more :
      (v : Value) (xs : Items)
      → print_items format_double xs ≡ ok (separated (texts xs))
      → amf_print format_double v ≡ ok (shown v)
      → print_items format_double (item v xs) ≡ ok (separated (shown v ∷ texts xs))
  unfolding print_items separated texts
  one_more v no_items es e = rw e (ap ok (append-nil (shown v)))
  one_more v (item w xs) es e = rw (e, es) refl

  failed_later :
      (v : Value) (xs : Items)
      → print_items format_double xs ≡ fault
      → amf_print format_double v ≡ ok (shown v)
      → print_items format_double (item v xs) ≡ fault
  unfolding print_items
  failed_later v xs es e = rw (e, es) refl

  failed_at_once :
      (v : Value) (xs : Items)
      → amf_print format_double v ≡ fault
      → print_items format_double (item v xs) ≡ fault
  unfolding print_items
  failed_at_once v xs e = rw e refl

  none_printed : print_items format_double no_items ≡ ok (separated (texts no_items))
  unfolding print_items separated texts
  none_printed = refl

  mutual
    unfolding amf_print has_text shown print_elems

    printed : (v : Value) → amf_print format_double v ≡ printed_unless (has_text v) (shown v)
    printed (number d) = refl
    printed (boolean b) = refl
    printed (string s) = refl
    printed (link n) = refl
    printed (plain c) = refl
    printed (hash no_elems) = refl
    printed (hash (elem k v t)) = refl
    printed (assoc_array no_elems) = refl
    printed (assoc_array (elem k v t)) = refl
    printed (array xs) = elim (Bool-cases (items_have_text xs)) [
      | inl text ↦ rw text (rw (items_printed xs ∙ if-true _ _ _ text) refl)
      | inr quiet ↦ rw quiet (rw (items_printed xs ∙ if-false _ _ _ quiet) refl)
    ]

    items_printed :
        (xs : Items)
        → print_items format_double xs ≡ printed_unless (items_have_text xs) (separated (texts xs))
    items_printed no_items = none_printed
    items_printed (item v xs) = elim (Bool-cases (has_text v)) [
      | inl text ↦ rw text (failed_at_once v xs (printed v ∙ if-true _ _ _ text))
      | inr quiet ↦ elim (Bool-cases (items_have_text xs)) [
        | inl text ↦
            rw (quiet, text)
              (failed_later v xs (items_printed xs ∙ if-true _ _ _ text)
                (printed v ∙ if-false _ _ _ quiet))
        | inr none_there ↦
            rw (quiet, none_there)
              (one_more v xs (items_printed xs ∙ if-false _ _ _ none_there)
                (printed v ∙ if-false _ _ _ quiet))
      ]
    ]

  -- Printing a value with a string in it, as itself, in an array or as the key of a table, reads memory
  -- that has been given back. Every other value is printed: a number by `%f`, a boolean as "true" or
  -- "false", an array as the texts of its items between brackets with ", " between each two, a table,
  -- which is empty, as "hash()" or "assoc()", and a link or any other type with its number.
  pub amf_print_faults :
      (v : Value) → amf_print format_double v ≡ (if has_text v then fault else ok (shown v))
  amf_print_faults v = printed v
