-- ===== src/Json/Examples.antt =====
-- Concrete inputs for the theorems on canonical JSON.
use axit_project.Prelude.{◌≡◌, ◌≢◌, arith, pos, String, string_eq}
use axit_project.Json.{integer, end, field, canonical_json_bytes}
use axit_project.Json.Canonical.{exchange, canonical_json_bytes_same}

b_ne_a : ◌≢◌ {A = String} "b" "a"
b_ne_a e = ground (arith, (string_eq.beq_iff "b" "a").1 e)

canonical_json_bytes_same_example :
    canonical_json_bytes (field "b" (integer (pos 1)) (field "a" (integer (pos 2)) end))
    ≡ canonical_json_bytes (field "a" (integer (pos 2)) (field "b" (integer (pos 1)) end))
canonical_json_bytes_same_example =
    canonical_json_bytes_same (field "b" (integer (pos 1)) (field "a" (integer (pos 2)) end))
      (field "a" (integer (pos 2)) (field "b" (integer (pos 1)) end))
      (exchange "b" "a" (integer (pos 1)) (integer (pos 2)) end b_ne_a)
