-- ===== src/Activity/Metadata.antt =====
-- apps/api/app/activity_policy.py: `safe_audit_metadata`.
pub mod Safety
use axit_project.Prelude.{
  ℕ, ◌+◌, Bool, true, false, ◌||◌, not, List, [], ◌∷◌, ◌++◌, String, Option, none, some, any_by,
  ltb, leb, ℤ, if◌then◌else◌, Result, ok, err, require, ◌>>=◌, ◌>>◌,
}
use axit_project.Errors.{Error, value_error, type_error}
use axit_project.Json.{
  Value, null, boolean, integer, float, text, array, object, unencodable, Items, nil, cons, Fields,
  end, field, Chars, chars, quoted, decimal, join_items, join_entries,
}
use axit_project.Activity.Keys.{starts_with}

-- The Python data that a caller passes. A key is `none` when it is not a text, a float comes with
-- the text that `json.dumps` writes for it and a UUID with its `str`.
mutual
  pub data Item : Type 0 where
    nothing : Item
    flag : Bool → Item
    whole : ℤ → Item
    real : String → Item
    words : String → Item
    uuid : String → Item
    sequence : Elements → Item
    mapping : Entries → Item
    other : Item

  pub data Elements : Type 0 where
    no_element : Elements
    element : Item → Elements → Elements

  pub data Entries : Type 0 where
    no_entry : Entries
    entry : Option String → Item → Entries → Entries

-- `_FORBIDDEN_PARTS`
abbrev pub forbidden_parts : List String
forbidden_parts =
    "password" ∷ "token" ∷ "cookie" ∷ "email" ∷ "comment_body" ∷ "source_text" ∷ "extracted_text"
    ∷ "storage_key" ∷ "provider_payload" ∷ "secret" ∷ "credential" ∷ []

-- `part in text`
unfoldable pub has_part : String → String → Bool
unfolding starts_with
has_part part String.[] = starts_with part String.[]
has_part part (String.◌∷◌ c s) = starts_with part (String.◌∷◌ c s) || has_part part s

-- The text of `json.dumps(…, ensure_ascii=False, separators=(",", ":"))`, whose keys keep their
-- order.
unfoldable mutual
  unfolding quoted decimal join_items join_entries

  pub json_text : Value → Result Error Chars
  json_text null = ok (chars "null")
  json_text (boolean true) = ok (chars "true")
  json_text (boolean false) = ok (chars "false")
  json_text (integer n) = ok (decimal n)
  json_text (float written) = ok (chars written)
  json_text (text s) = ok (quoted s)
  json_text (array xs) = json_items xs >>= λ items. ok (91 ∷ join_items items ++ 93 ∷ [])
  json_text (object fs) = json_fields fs >>= λ entries. ok (123 ∷ join_entries entries ++ 125 ∷ [])
  json_text unencodable = err type_error

  pub json_items : Items → Result Error (List Chars)
  json_items nil = ok []
  json_items (cons x xs) = json_text x >>= λ y. json_items xs >>= λ ys. ok (y ∷ ys)

  pub json_fields : Fields → Result Error (List (String × Chars))
  json_fields end = ok []
  json_fields (field k x fs) = json_text x >>= λ y. json_fields fs >>= λ ys. ok ((k, y) ∷ ys)

-- `len(text.encode())`
unfoldable pub utf8_length : Chars → ℕ
utf8_length [] = 0
utf8_length (c ∷ rest) =
    (if ltb c 128 then 1 else if ltb c 2048 then 2 else if ltb c 65536 then 3 else 4)
    + utf8_length rest

-- `str.lower`, the case mapping of Unicode, is a parameter.
module _ (lower : String → String) where
  abbrev pub is_forbidden : String → Bool
  is_forbidden key = any_by (λ part. has_part part (lower key)) forbidden_parts

  unfoldable mutual
    unfolding has_part

    pub validate : Item → Result Error Value
    validate nothing = ok null
    validate (flag b) = ok (boolean b)
    validate (whole n) = ok (integer n)
    validate (real written) = ok (float written)
    validate (words s) = ok (text s)
    validate (uuid s) = ok (text s)
    validate (sequence xs) = validate_elements xs >>= λ ys. ok (array ys)
    validate (mapping es) = validate_entries es >>= λ fs. ok (object fs)
    validate other = err value_error

    pub validate_elements : Elements → Result Error Items
    validate_elements no_element = ok nil
    validate_elements (element x xs) =
        validate x >>= λ y. validate_elements xs >>= λ ys. ok (cons y ys)

    pub validate_entries : Entries → Result Error Fields
    validate_entries no_entry = ok end
    validate_entries (entry none x es) = err value_error
    validate_entries (entry (some key) x es) = require (not (is_forbidden key)) value_error >>= λ _.
        validate x >>= λ y. validate_entries es >>= λ fs. ok (field key y fs)

  unfoldable pub safe_audit_metadata : Entries → Result Error Fields
  unfolding json_text utf8_length validate
  safe_audit_metadata value = do
    result ← validate_entries value
    encoded ← json_text (object result)
    require (leb (utf8_length encoded) 4096) value_error
    ok result
