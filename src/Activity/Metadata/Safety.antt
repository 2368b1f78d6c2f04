-- ===== src/Activity/Metadata/Safety.antt =====
-- What `safe_audit_metadata` lets through, by the keys and the values at any depth.
use axit_project.Prelude.{
  ◌≤◌, ◌≡◌, refl, ap, sym, ◌∙◌, ◌↔◌, inl, inr, Bool, true, false, ◌&&◌, not, List, [], ◌∷◌, ◌++◌,
  String, Option, none, some, all_by, arith, if◌then◌else◌, Result, ok, err, Bool-cases, leb, ◌>>=◌,
}
use axit_project.Errors.{Error, value_error}
use axit_project.Json.{
  Value, null, boolean, integer, float, text, array, object, unencodable, Items, nil, cons, Fields,
  end, field, Chars,
}
use axit_project.Activity.Metadata.{
  Item, nothing, flag, whole, real, words, uuid, sequence, mapping, other, Elements, no_element,
  element, Entries, no_entry, entry, json_text, json_items, json_fields, utf8_length, is_forbidden,
  validate, validate_elements, validate_entries, safe_audit_metadata,
}

-- The keys at any depth, whether every value at any depth has a type that is supported, and the
-- copy.
unfoldable mutual
  pub keys_of : Item → List (Option String)
  keys_of (sequence xs) = keys_of_elements xs
  keys_of (mapping es) = keys_of_entries es
  keys_of _ = []

  pub keys_of_elements : Elements → List (Option String)
  keys_of_elements no_element = []
  keys_of_elements (element x xs) = keys_of x ++ keys_of_elements xs

  pub keys_of_entries : Entries → List (Option String)
  keys_of_entries no_entry = []
  keys_of_entries (entry key x es) = key ∷ keys_of x ++ keys_of_entries es

unfoldable mutual
  pub is_supported : Item → Bool
  is_supported (sequence xs) = all_supported xs
  is_supported (mapping es) = entries_supported es
  is_supported other = false
  is_supported _ = true

  pub all_supported : Elements → Bool
  all_supported no_element = true
  all_supported (element x xs) = is_supported x && all_supported xs

  pub entries_supported : Entries → Bool
  entries_supported no_entry = true
  entries_supported (entry key x es) = is_supported x && entries_supported es

abbrev pub key_text : Option String → String
key_text none = ""
key_text (some key) = key

unfoldable mutual
  pub plain : Item → Value
  plain nothing = null
  plain (flag b) = boolean b
  plain (whole n) = integer n
  plain (real written) = float written
  plain (words s) = text s
  plain (uuid s) = text s
  plain (sequence xs) = array (plain_elements xs)
  plain (mapping es) = object (plain_entries es)
  plain other = unencodable

  pub plain_elements : Elements → Items
  plain_elements no_element = nil
  plain_elements (element x xs) = cons (plain x) (plain_elements xs)

  pub plain_entries : Entries → Fields
  plain_entries no_entry = end
  plain_entries (entry key x es) = field (key_text key) (plain x) (plain_entries es)

all_by-append :
    (test : Option String → Bool) (xs ys : List (Option String))
    → all_by test (xs ++ ys) ≡ (all_by test xs && all_by test ys)
all_by-append test [] ys = refl
all_by-append test (x ∷ xs) ys = ground (arith, all_by-append test xs ys)

-- A value that a test lets through.
abbrev given_when {ℓ} : {A : Type ℓ} → Bool → A → Result Error A
given_when test a = if test then ok a else err value_error

given_map :
    {A B : Type 0} (b : Bool) (a : A) (f : A → B)
    → (given_when b a >>= λ y. ok (f y)) ≡ given_when b (f a)
given_map true a f = refl
given_map false a f = refl

given_two :
    {A B C : Type 0} (b c : Bool) (a : A) (d : B) (f : A → B → C)
    → (given_when b a >>= λ y. given_when c d >>= λ z. ok (f y z)) ≡ given_when (b && c) (f a d)
given_two true true a d f = refl
given_two true false a d f = refl
given_two false c a d f = refl

interleave : (a b c d : Bool) → ((a && b) && (c && d)) ≡ ((a && c) && (b && d))
interleave a b c d = ground arith

module _ (lower : String → String) where
  abbrev pub key_allowed : Option String → Bool
  key_allowed none = false
  key_allowed (some key) = not (is_forbidden lower key)

  abbrev accepted : Bool → List (Option String) → Bool
  accepted supported keys = supported && all_by key_allowed keys

  accepted_two :
      (a b : Bool) (xs ys : List (Option String))
      → (accepted a xs && accepted b ys) ≡ accepted (a && b) (xs ++ ys)
  accepted_two a b xs ys =
      interleave a (all_by key_allowed xs) b (all_by key_allowed ys)
      ∙ ap (λ c. (a && b) && c) (sym (all_by-append key_allowed xs ys))

  mutual
    unfolding validate keys_of is_supported plain

    validate_lem :
        (x : Item) → validate lower x ≡ given_when (accepted (is_supported x) (keys_of x)) (plain x)
    validate_lem nothing = refl
    validate_lem (flag b) = refl
    validate_lem (whole n) = refl
    validate_lem (real written) = refl
    validate_lem (words s) = refl
    validate_lem (uuid s) = refl
    validate_lem (sequence xs) =
        rw (validate_elements_lem xs) (given_map _ (plain_elements xs) array)
    validate_lem (mapping es) = rw (validate_entries_lem es) (given_map _ (plain_entries es) object)
    validate_lem other = refl

    validate_elements_lem :
        (xs : Elements)
        → validate_elements lower xs
          ≡ given_when (accepted (all_supported xs) (keys_of_elements xs)) (plain_elements xs)
    validate_elements_lem no_element = refl
    validate_elements_lem (element x xs) =
        rw (validate_lem x, validate_elements_lem xs)
          (given_two _ _ (plain x) (plain_elements xs) cons
            ∙ ap (λ b. given_when b (cons (plain x) (plain_elements xs)))
                (accepted_two (is_supported x) (all_supported xs) (keys_of x)
                  (keys_of_elements xs)))

    validate_entries_lem :
        (es : Entries)
        → validate_entries lower es
          ≡ given_when (accepted (entries_supported es) (keys_of_entries es)) (plain_entries es)
    validate_entries_lem no_entry = refl
    validate_entries_lem (entry none x es) = ground arith
    validate_entries_lem (entry (some key) x es) = elim (Bool-cases (is_forbidden lower key)) [
      | inl bad ↦ rw bad (ground arith)
      | inr good ↦
          rw (good, validate_lem x, validate_entries_lem es)
            (given_two _ _ (plain x) (plain_entries es) (field key)
              ∙ ap (λ b. given_when b (field key (plain x) (plain_entries es)))
                  (accepted_two (is_supported x) (entries_supported es) (keys_of x)
                    (keys_of_entries es)))
    ]

abbrev IsWritten {ℓ} : {A : Type ℓ} → Result Error A → Type ℓ
IsWritten {A = A} r = (a : A) × (r ≡ ok a)

written_map :
    {A B : Type 0} (r : Result Error A) (f : A → B) → IsWritten r → IsWritten (r >>= λ y. ok (f y))
written_map r f (a, e) = (f a, rw e refl)

written_two :
    {A B C : Type 0} (r : Result Error A) (q : Result Error B) (f : A → B → C)
    → IsWritten r
    → IsWritten q
    → IsWritten (r >>= λ y. q >>= λ z. ok (f y z))
written_two r q f (a, e) (b, k) = (f a b, rw (e, k) refl)

-- What was copied can be written as JSON.
mutual
  unfolding json_text is_supported plain

  json_text-plain : (x : Item) → is_supported x ≡ true → IsWritten (json_text (plain x))
  json_text-plain nothing h = (_, refl)
  json_text-plain (flag true) h = (_, refl)
  json_text-plain (flag false) h = (_, refl)
  json_text-plain (whole n) h = (_, refl)
  json_text-plain (real written) h = (_, refl)
  json_text-plain (words s) h = (_, refl)
  json_text-plain (uuid s) h = (_, refl)
  json_text-plain (sequence xs) h = written_map _ _ (json_items-plain xs h)
  json_text-plain (mapping es) h = written_map _ _ (json_fields-plain es h)
  json_text-plain other h = absurd (ground (arith, h))

  json_items-plain :
      (xs : Elements) → all_supported xs ≡ true → IsWritten (json_items (plain_elements xs))
  json_items-plain no_element h = (_, refl)
  json_items-plain (element x xs) h =
      written_two _ _ _ (json_text-plain x (ground (arith, h)))
        (json_items-plain xs (ground (arith, h)))

  json_fields-plain :
      (es : Entries) → entries_supported es ≡ true → IsWritten (json_fields (plain_entries es))
  json_fields-plain no_entry h = (_, refl)
  json_fields-plain (entry key x es) h =
      written_two _ _ _ (json_text-plain x (ground (arith, h)))
        (json_fields-plain es (ground (arith, h)))

module _ (lower : String → String) (value : Entries) where
  abbrev pub IsAccepted : Type 0
  IsAccepted =
      (entries_supported value ≡ true)
      × (all_by (key_allowed lower) (keys_of_entries value) ≡ true)
      × ((encoded : Chars) × (json_text (object (plain_entries value)) ≡ ok encoded)
          × (utf8_length encoded ≤ 4096))

  written : entries_supported value ≡ true → IsWritten (json_text (object (plain_entries value)))
  unfolding is_supported plain
  written h = json_text-plain (mapping value) h

  unsupported : entries_supported value ≡ false → safe_audit_metadata lower value ≡ err value_error
  unfolding safe_audit_metadata
  unsupported h = rw (validate_entries_lem lower value) (rw h refl)

  supported :
      (encoded : Chars)
      → entries_supported value ≡ true
      → json_text (object (plain_entries value)) ≡ ok encoded
      → safe_audit_metadata lower value
        ≡ given_when
            (all_by (key_allowed lower) (keys_of_entries value) && leb (utf8_length encoded) 4096)
            (plain_entries value)
  unfolding safe_audit_metadata
  supported encoded h e = rw (validate_entries_lem lower value) (
      rw h (elim (Bool-cases (all_by (key_allowed lower) (keys_of_entries value))) [
        | inl yes_keys ↦ rw (yes_keys, e) (ground arith)
        | inr no_keys ↦ rw no_keys refl
      ]))

  -- Metadata is recorded exactly when every value at any depth has a supported type, every key at
  -- any depth is a text whose lowercase has no forbidden part, and the copy takes at most 4096
  -- bytes as JSON; what is recorded is the copy, and the only error is ValueError.
  pub safe_audit_metadata_iff :
      ((r : Fields)
        → (safe_audit_metadata lower value ≡ ok r) ↔ (IsAccepted × (r ≡ plain_entries value)))
      × ((e : Error) → safe_audit_metadata lower value ≡ err e → e ≡ value_error)
  safe_audit_metadata_iff = elim (Bool-cases (entries_supported value)) [
    | inr no_support ↦ (
      λ r. ground (arith, unsupported no_support, no_support),
      λ e h. ground (arith, unsupported no_support, h),
    )
    | inl support ↦
        let (encoded, e) = written support in
        let same = supported encoded support e in
        (
          λ r. (
            λ h. (
              (support, ground (arith, same, h), (encoded, e, ground (arith, same, h))),
              ground (arith, same, h),
            ),
            λ ((_, keys, (found, t, fits)), r_same). ground (arith, same, keys, t, e, fits, r_same),
          ),
          λ x h. ground (arith, same, h),
        )
  ]
