-- ===== src/Annotation/Value.antt =====
-- src/annotation.rs: encoded values and annotations. A float is its bit pattern, an index of a pool
-- its number. `Values` is a `Vec<EncodedValue>` and `Elements` a `BTreeMap<StringIdx, EncodedValue>`
-- with ascending keys; an annotation is the index of its type with its elements.
use droidsaw_dex.Prelude.{ℕ, Bool, ltb, ◌==◌, if◌then◌else◌, suc}
use droidsaw_dex.Prelude.Int.{ℤ}

mutual
  pub data EncodedValue : Type 0 where
    byte short int long : ℤ → EncodedValue
    char float double : ℕ → EncodedValue
    string type_of field method enum_of method_type method_handle : ℕ → EncodedValue
    array : Values → EncodedValue
    annotation : ℕ → Elements → EncodedValue
    null_value : EncodedValue
    boolean : Bool → EncodedValue

  pub data Values : Type 0 where
    nil : Values
    cons : EncodedValue → Values → Values

  pub data Elements : Type 0 where
    end : Elements
    element : ℕ → EncodedValue → Elements → Elements

unfoldable pub count_values : Values → ℕ
count_values nil = 0
count_values (cons v vs) = suc (count_values vs)

unfoldable pub count_elements : Elements → ℕ
count_elements end = 0
count_elements (element name v es) = suc (count_elements es)

-- `children.push(val)`
unfoldable pub push_value : Values → EncodedValue → Values
push_value nil v = cons v nil
push_value (cons w vs) v = cons w (push_value vs v)

-- `elements.insert(name, val)`
unfoldable pub insert_element : ℕ → EncodedValue → Elements → Elements
insert_element name v end = element name v end
insert_element name v (element other w es) =
    let rest = insert_element name v es in
    if ltb name other
    then element name v (element other w es)
    else if name == other
    then element name v es
    else element other w rest
