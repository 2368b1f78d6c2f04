-- ===== src/Json.antt =====
-- JSON-compatible Python data, and `canonical_json_bytes` of apps/api/app/queue_repository.py: the
-- text of `json.dumps(…, allow_nan=False, ensure_ascii=False, separators=(",", ":"),
-- sort_keys=True)`, as code points (its UTF-8 encoding is one to one).
pub mod Canonical
mod Examples
use axit_project.Prelude.{
  ℕ, zero, suc, ◌+◌, ◌/◌, ◌%◌, List, [], ◌∷◌, ◌++◌, String, code, ltb, leb, length, require, ◌>>◌,
  nat_eqb, if◌then◌else◌, Bool, true, false, ◌||◌, ℤ, pos, negsuc, Result, ok, err, ◌>>=◌,
}
use axit_project.Prelude.Sorting.{text_ltb}
use axit_project.Errors.{Error, queue_invariant_error}

-- A dictionary has text keys, and its fields stand in insertion order. A finite float comes with
-- its `repr`; `unencodable` is what `json.dumps` refuses, a NaN or a value of another type.
mutual
  pub data Value : Type 0 where
    null : Value
    boolean : Bool → Value
    integer : ℤ → Value
    float : String → Value
    text : String → Value
    array : Items → Value
    object : Fields → Value
    unencodable : Value

  pub data Items : Type 0 where
    nil : Items
    cons : Value → Items → Items

  pub data Fields : Type 0 where
    end : Fields
    field : String → Value → Fields → Fields

abbrev pub Chars : Type 0
Chars = List ℕ

abbrev pub chars : String → Chars
chars String.[] = []
chars (String.◌∷◌ c s) = code c ∷ chars s

hex_digit : ℕ → ℕ
hex_digit n = if ltb n 10 then 48 + n else 87 + n

-- One character of a text, escaped as `json` does without `ensure_ascii`.
escape : ℕ → Chars
unfolding hex_digit
escape c =
    if nat_eqb c 34
    then 92 ∷ 34 ∷ []
    else if nat_eqb c 92
    then 92 ∷ 92 ∷ []
    else if nat_eqb c 10
    then 92 ∷ 110 ∷ []
    else if nat_eqb c 13
    then 92 ∷ 114 ∷ []
    else if nat_eqb c 9
    then 92 ∷ 116 ∷ []
    else if nat_eqb c 12
    then 92 ∷ 102 ∷ []
    else if nat_eqb c 8
    then 92 ∷ 98 ∷ []
    else if ltb c 32
    then 92 ∷ 117 ∷ 48 ∷ 48 ∷ hex_digit (c / 16) ∷ hex_digit (c % 16) ∷ []
    else c ∷ []

escape_all : Chars → Chars
unfolding escape
escape_all [] = []
escape_all (c ∷ cs) = escape c ++ escape_all cs

unfoldable pub quoted : String → Chars
unfolding escape_all
quoted s = 34 ∷ escape_all (chars s) ++ 34 ∷ []

-- The digits of a number, the last one first; `n + 1` rounds are enough for `n`.
digits_of : ℕ → ℕ → Chars
digits_of zero n = []
digits_of (suc fuel) n =
    let rest = digits_of fuel (n / 10) in
    if ltb n 10 then (48 + n) ∷ [] else rest ++ (48 + n % 10) ∷ []

unfoldable pub decimal : ℤ → Chars
unfolding digits_of
decimal (pos n) = digits_of (suc n) n
decimal (negsuc n) = 45 ∷ digits_of (suc (suc n)) (suc n)

-- `int.__repr__`, which refuses more than 4300 digits with a ValueError.
unfoldable pub number : ℤ → Result Error Chars
unfolding decimal
number (pos n) =
    require (leb (length (decimal (pos n))) 4300) queue_invariant_error >> ok (decimal (pos n))
number (negsuc n) =
    require (leb (length (decimal (pos (suc n)))) 4300) queue_invariant_error
    >> ok (decimal (negsuc n))

-- `sorted(dct.items())`: keys of a dictionary are distinct, so they alone decide.
pub insert_entry : String × Chars → List (String × Chars) → List (String × Chars)
insert_entry (k, v) [] = (k, v) ∷ []
insert_entry (k, v) ((j, w) ∷ rest) =
    let later = insert_entry (k, v) rest in
    if text_ltb j k then (j, w) ∷ later else (k, v) ∷ (j, w) ∷ rest

pub sort_entries : List (String × Chars) → List (String × Chars)
unfolding insert_entry
sort_entries [] = []
sort_entries (e ∷ rest) = insert_entry e (sort_entries rest)

unfoldable pub join_items : List Chars → Chars
join_items [] = []
join_items (x ∷ []) = x
join_items (x ∷ y ∷ rest) = x ++ 44 ∷ join_items (y ∷ rest)

unfoldable pub join_entries : List (String × Chars) → Chars
unfolding quoted
join_entries [] = []
join_entries ((k, v) ∷ []) = quoted k ++ 58 ∷ v
join_entries ((k, v) ∷ e ∷ rest) = quoted k ++ 58 ∷ v ++ 44 ∷ join_entries (e ∷ rest)

unfoldable mutual
  unfolding quoted number sort_entries join_items join_entries

  pub dumps : Value → Result Error Chars
  dumps null = ok (chars "null")
  dumps (boolean true) = ok (chars "true")
  dumps (boolean false) = ok (chars "false")
  dumps (integer n) = number n
  dumps (float repr) = ok (chars repr)
  dumps (text s) = ok (quoted s)
  dumps (array xs) = dumps_items xs >>= λ items. ok (91 ∷ join_items items ++ 93 ∷ [])
  dumps (object fs) =
      dumps_fields fs >>= λ entries. ok (123 ∷ join_entries (sort_entries entries) ++ 125 ∷ [])
  dumps unencodable = err queue_invariant_error

  pub dumps_items : Items → Result Error (List Chars)
  dumps_items nil = ok []
  dumps_items (cons x xs) = dumps x >>= λ y. dumps_items xs >>= λ ys. ok (y ∷ ys)

  pub dumps_fields : Fields → Result Error (List (String × Chars))
  dumps_fields end = ok []
  dumps_fields (field k x fs) = dumps x >>= λ y. dumps_fields fs >>= λ ys. ok ((k, y) ∷ ys)

unfoldable pub canonical_json_bytes : Fields → Result Error Chars
canonical_json_bytes value = dumps (object value)

-- A text of the value holds the character NUL, which `jsonb` cannot store.
abbrev pub has_nul : Chars → Bool
has_nul [] = false
has_nul (c ∷ cs) = nat_eqb c 0 || has_nul cs

unfoldable mutual
  pub nul_in : Value → Bool
  nul_in null = false
  nul_in (boolean b) = false
  nul_in (integer n) = false
  nul_in (float repr) = false
  nul_in (text s) = has_nul (chars s)
  nul_in (array xs) = nul_in_items xs
  nul_in (object fs) = nul_in_fields fs
  nul_in unencodable = false

  pub nul_in_items : Items → Bool
  nul_in_items nil = false
  nul_in_items (cons x xs) = nul_in x || nul_in_items xs

  pub nul_in_fields : Fields → Bool
  nul_in_fields end = false
  nul_in_fields (field k x fs) = has_nul (chars k) || nul_in x || nul_in_fields fs
