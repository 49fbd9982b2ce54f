-- ===== src/Amf/Valid.antt =====
-- The values that the wire format of core/src/amf.c can carry.
use rushkit.Base.{◌^◌, ◌<◌, ◌≡◌, ◌≢◌, false, length}
use rushkit.Amf.{
  Value, Items, Table, number, boolean, string, hash, plain, link, assoc_array, array, no_items,
  item, no_elems, elem, type_of, has_payload, items_size, table_size, amf_end,
}

-- Sizes are read as a signed short or int, a type is one byte, and a value of type AMF_END in a
-- table would end it.
unfoldable mutual
  pub IsValid : Value → Type 0
  IsValid (number d) = d < 2 ^ 64
  IsValid (boolean b) = b < 256
  IsValid (string s) = length s < 2 ^ 15
  IsValid (hash t) = AreValidElems t
  IsValid (plain c) = (c < 256) × (has_payload c ≡ false)
  IsValid (link n) = n < 2 ^ 16
  IsValid (assoc_array t) = (table_size t < 2 ^ 31) × AreValidElems t
  IsValid (array xs) = (items_size xs < 2 ^ 31) × AreValidItems xs

  pub AreValidItems : Items → Type 0
  AreValidItems no_items = Unit
  AreValidItems (item v xs) = IsValid v × AreValidItems xs

  pub AreValidElems : Table → Type 0
  AreValidElems no_elems = Unit
  AreValidElems (elem k v t) =
      (length k < 2 ^ 15) × (type_of v ≢ amf_end) × IsValid v × AreValidElems t
