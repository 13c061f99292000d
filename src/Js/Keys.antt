-- ===== src/Js/Keys.antt =====
-- `Object.keys(v).sort().join(",")`, and the tests of arrays.
use mathlib.Core.List.{[]}
use mo_xx.Shared.{
  ◌%◌, ◌/◌, ◌-◌, ◌==◌, ◌+◌, ◌||◌, ◌&&◌, not, ltb, true, suc, if◌then◌else◌, false, [], ◌∷◌, ℕ, Bool,
  String, List,
}
use mo_xx.Js.Value.{
  Number, end, field, nil, arr, keys, cons, Value, Items, Fields, number, strict_eq,
}
use Prim.Native.String
use Prim.Native.Char.{code}

-- The UTF-16 units of a text, by which `sort` orders it.
unfoldable pub units : String → List ℕ
units String.[] = []
units (String.◌∷◌ c s) =
    let rest = units s in
    if ltb (code c) 65536
    then code c ∷ rest
    else (55296 + (code c - 65536) / 1024) ∷ (56320 + (code c - 65536) % 1024) ∷ rest

units_le : List ℕ → List ℕ → Bool
units_le [] ys = true
units_le (x ∷ xs) [] = false
units_le (x ∷ xs) (y ∷ ys) = ltb x y || (x == y && units_le xs ys)

-- `<` on texts
unfoldable pub text_lt : String → String → Bool
unfolding units_le units
text_lt s t = not (units_le (units t) (units s))

unfoldable pub insert_key : String → List String → List String
unfolding units_le units
insert_key k [] = k ∷ []
insert_key k (j ∷ js) =
    let rest = insert_key k js in if units_le (units k) (units j) then k ∷ j ∷ js else j ∷ rest

unfoldable pub sort_keys : List String → List String
unfolding insert_key
sort_keys [] = []
sort_keys (k ∷ ks) = insert_key k (sort_keys ks)

-- `join(",")`
unfoldable pub join_keys : List String → String
join_keys [] = ""
join_keys (k ∷ []) = k
join_keys (k ∷ j ∷ ks) = String.◌++◌ k (String.◌++◌ "," (join_keys (j ∷ ks)))

unfoldable pub sorted_keys : Fields → String
unfolding sort_keys join_keys
sorted_keys fs = join_keys (sort_keys (keys fs))

-- `Object.values(v).every(p)`
abbrev pub all_values : (Value → Bool) → Fields → Bool
all_values p end = true
all_values p (field k v fs) = p v && all_values p fs

-- `items.every(p)`, and the number of items
abbrev pub all_items : (Value → Bool) → Items → Bool
all_items p nil = true
all_items p (cons x xs) = p x && all_items p xs

abbrev pub count_items : Items → ℕ
count_items nil = 0
count_items (cons x xs) = suc (count_items xs)

-- The values that a set takes for one.
abbrev pub same_value : Value → Value → Bool
same_value (number Number.nan s) (number Number.nan t) = true
same_value a b = strict_eq a b

abbrev pub has_item : Value → Items → Bool
has_item v nil = false
has_item v (cons x xs) = same_value v x || has_item v xs

-- `new Set(items).size === items.length`
abbrev pub are_distinct : Items → Bool
are_distinct nil = true
are_distinct (cons x xs) = not (has_item x xs) && are_distinct xs

abbrev pub map_items : (Value → Value) → Items → Items
map_items f nil = nil
map_items f (cons x xs) = cons (f x) (map_items f xs)

-- `Array.isArray(v) && p(v)`
abbrev pub array_with : (Items → Bool) → Value → Bool
array_with p (arr xs) = p xs
array_with p _ = false
