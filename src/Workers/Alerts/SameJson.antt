-- ===== src/Workers/Alerts/SameJson.antt =====
-- src/is_same_json_value.ts of momi-order-alert-worker-v1. Two objects that came to be apart are not
-- the same object, so they are compared by their properties.
pub mod Keys
pub mod Reflexivity
pub mod Symmetry
pub mod Transitivity
pub mod Equivalence
use mo_xx.Js.Keys.{same_value}
use mo_xx.Shared.{false, true, ◌&&◌, ◌==◌, Bool, has, length}
use mo_xx.Js.Value.{field_of, Fields, Items, keys, arr, obj, nil, cons, end, field, Value}

-- `Object.hasOwn(right, key)`, and the number of keys
unfoldable mutual
  pub is_same_json_value : Value → Value → Bool
  is_same_json_value (arr xs) (arr ys) = same_items xs ys
  is_same_json_value (obj fs) (obj gs) = (length (keys fs) == length (keys gs)) && same_fields fs gs
  is_same_json_value l r = same_value l r

  pub same_items : Items → Items → Bool
  same_items nil nil = true
  same_items nil (cons y ys) = false
  same_items (cons x xs) nil = false
  same_items (cons x xs) (cons y ys) = is_same_json_value x y && same_items xs ys

  -- each property of the left object is the right one's
  pub same_fields : Fields → Fields → Bool
  same_fields end gs = true
  same_fields (field k v fs) gs =
      has (keys gs) k && is_same_json_value v (field_of gs k) && same_fields fs gs
