-- ===== src/Preorder/Quote/Versions.antt =====
-- What the test of a quote request's versions lets through.
use mo_xx.Js.Value.{end, whole, number, field, prop, obj, is_positive_integer, Value}
use mo_xx.Shared.{true, String, ℕ, ◌≡◌}

-- The four versions, as the source means them.
pub record HasVersions (v : Value) : Type 0 where
  pub catalog : is_positive_integer (prop v "catalog_version") ≡ true
  pub mapping : is_positive_integer (prop v "mapping_version") ≡ true
  pub policy : is_positive_integer (prop v "policy_version") ≡ true
  pub surface : is_positive_integer (prop v "surface_version") ≡ true

-- an object with one key, which is the four names joined
abbrev pub merged_versions : ℕ → String → Value
merged_versions n t = obj (
    field "catalog_version,mapping_version,policy_version,surface_version" (number (whole n) t) end)
