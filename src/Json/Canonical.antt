-- ===== src/Json/Canonical.antt =====
-- `canonical_json_bytes` on dictionaries that were filled in another order.
use mathlib.Core.Path.{ap₂}
use axit_project.Prelude.{
  ◌≡◌, ◌≢◌, refl, sym, ap, ◌∙◌, List, [], ◌∷◌, ◌++◌, String, arith, Result, ok, err, ◌>>=◌,
}
use axit_project.Prelude.Sorting.{text_lt_trans, text_lt_total, text_lt_irrefl}
use axit_project.Errors.{Error, queue_invariant_error}
use axit_project.Json.{
  Value, array, object, Items, nil, cons, Fields, end, field, Chars, insert_entry, sort_entries,
  join_items, join_entries, dumps, dumps_items, dumps_fields, canonical_json_bytes,
}

insert_entry_comm :
    (k j : String) (v w : Chars) (rest : List (String × Chars))
    → k ≢ j
    → insert_entry (k, v) (insert_entry (j, w) rest)
      ≡ insert_entry (j, w) (insert_entry (k, v) rest)
unfolding insert_entry
insert_entry_comm k j v w [] h =
    ground (arith, text_lt_total k j, text_lt_trans k j k, text_lt_irrefl k)
insert_entry_comm k j v w ((i, u) ∷ rest) h = ground (
  arith,
  insert_entry_comm k j v w rest h,
  text_lt_total k j,
  text_lt_trans k j k,
  text_lt_irrefl k,
  text_lt_trans i k j,
  text_lt_trans i j k,
  text_lt_total i j,
  text_lt_total i k,
  text_lt_trans j i k,
  text_lt_trans k i j,
  text_lt_trans j k i,
  text_lt_trans k j i,
)

mutual
  -- The same data, whose dictionaries were filled in another order.
  pub data SameValue : Value → Value → Type 0 where
    same : (x : Value) → SameValue x x
    arrays : {xs ys : Items} → SameItems xs ys → SameValue (array xs) (array ys)
    objects : {fs gs : Fields} → SameFields fs gs → SameValue (object fs) (object gs)

  pub data SameItems : Items → Items → Type 0 where
    no_items : SameItems nil nil
    item :
        {x y : Value} {xs ys : Items}
        → SameValue x y
        → SameItems xs ys
        → SameItems (cons x xs) (cons y ys)

  pub data SameFields : Fields → Fields → Type 0 where
    no_fields : SameFields end end
    entry :
        (k : String) {x y : Value} {fs gs : Fields}
        → SameValue x y
        → SameFields fs gs
        → SameFields (field k x fs) (field k y gs)
    exchange :
        (k j : String) (x y : Value) (fs : Fields)
        → k ≢ j
        → SameFields (field k x (field j y fs)) (field j y (field k x fs))
    chain : {fs gs hs : Fields} → SameFields fs gs → SameFields gs hs → SameFields fs hs

-- A result whose error, if it has one, is the encoder's.
abbrev Encodes {ℓ} : {A : Type ℓ} → Result Error A → Type ℓ
Encodes r = (e : Error) → r ≡ err e → e ≡ queue_invariant_error

Encodes-map :
    {A B : Type 0} (r : Result Error A) (f : A → B) → Encodes r → Encodes (r >>= λ y. ok (f y))
Encodes-map (ok a) f h e k = absurd (ground arith)
Encodes-map (err x) f h e k = h e (ground (arith, k))

Encodes-two :
    {A B C : Type 0} (r : Result Error A) (q : Result Error B) (f : A → B → C)
    → Encodes r
    → Encodes q
    → Encodes (r >>= λ y. q >>= λ z. ok (f y z))
Encodes-two (ok a) q f h k = Encodes-map q (f a) k
Encodes-two (err x) q f h k = λ e same. h e (ground (arith, same))

-- The one error of the encoder.
mutual
  unfolding dumps

  dumps_err : (x : Value) → Encodes (dumps x)
  dumps_err (array xs) = Encodes-map (dumps_items xs) _ (dumps_items_err xs)
  dumps_err (object fs) = Encodes-map (dumps_fields fs) _ (dumps_fields_err fs)
  dumps_err x = λ e h. ground arith

  dumps_items_err : (xs : Items) → Encodes (dumps_items xs)
  dumps_items_err nil = λ e h. cc
  dumps_items_err (cons x xs) =
      Encodes-two (dumps x) (dumps_items xs) _ (dumps_err x) (dumps_items_err xs)

  dumps_fields_err : (fs : Fields) → Encodes (dumps_fields fs)
  dumps_fields_err end = λ e h. cc
  dumps_fields_err (field k x fs) =
      Encodes-two (dumps x) (dumps_fields fs) _ (dumps_err x) (dumps_fields_err fs)

sorted_fields : Fields → Result Error (List (String × Chars))
sorted_fields fs = dumps_fields fs >>= λ entries. ok (sort_entries entries)

with_entry :
    String
    → Result Error Chars
    → Result Error (List (String × Chars))
    → Result Error (List (String × Chars))
with_entry k r entries = r >>= λ y. entries >>= λ es. ok (insert_entry (k, y) es)

sorted_fields-field :
    (k : String) (x : Value) (fs : Fields)
    → sorted_fields (field k x fs) ≡ with_entry k (dumps x) (sorted_fields fs)
unfolding sorted_fields dumps sort_entries with_entry
sorted_fields-field k x fs = ground arith

with_entry_comm :
    (k j : String) (rx ry : Result Error Chars) (rf : Result Error (List (String × Chars)))
    → k ≢ j
    → Encodes rx
    → Encodes ry
    → Encodes rf
    → with_entry k rx (with_entry j ry rf) ≡ with_entry j ry (with_entry k rx rf)
unfolding with_entry
with_entry_comm k j (ok a) (ok b) (ok es) h hx hy hf = ap ok (insert_entry_comm k j a b es h)
with_entry_comm k j (ok a) (ok b) (err e) h hx hy hf = refl
with_entry_comm k j (ok a) (err e) (ok es) h hx hy hf = refl
with_entry_comm k j (ok a) (err e) (err e') h hx hy hf = refl
with_entry_comm k j (err e) (ok b) (ok es) h hx hy hf = refl
with_entry_comm k j (err e) (ok b) (err e') h hx hy hf = refl
with_entry_comm k j (err e) (err e') rf h hx hy hf = ap err (hx e refl ∙ sym (hy e' refl))

sorted_fields-Encodes : (fs : Fields) → Encodes (sorted_fields fs)
unfolding sorted_fields
sorted_fields-Encodes fs e h = ground (arith, dumps_fields_err fs e)

sorted_fields-exchange :
    (k j : String) (x y : Value) (fs : Fields)
    → k ≢ j
    → sorted_fields (field k x (field j y fs)) ≡ sorted_fields (field j y (field k x fs))
sorted_fields-exchange k j x y fs h =
    sorted_fields-field k x (field j y fs)
    ∙ ap (with_entry k (dumps x)) (sorted_fields-field j y fs)
    ∙ with_entry_comm k j (dumps x) (dumps y) (sorted_fields fs) h (dumps_err x) (dumps_err y)
        (sorted_fields-Encodes fs)
    ∙ sym (
        sorted_fields-field j y (field k x fs)
        ∙ ap (with_entry j (dumps y)) (sorted_fields-field k x fs))

abbrev with_item : Result Error Chars → Result Error (List Chars) → Result Error (List Chars)
with_item r rows = r >>= λ y. rows >>= λ ys. ok (y ∷ ys)

abbrev braces : List (String × Chars) → Result Error Chars
braces entries = ok (123 ∷ join_entries entries ++ 125 ∷ [])

abbrev brackets : List Chars → Result Error Chars
brackets rows = ok (91 ∷ join_items rows ++ 93 ∷ [])

dumps-object : (fs : Fields) → dumps (object fs) ≡ (sorted_fields fs >>= braces)
unfolding dumps sorted_fields
dumps-object fs = ground arith

mutual
  unfolding dumps

  dumps_same : (x y : Value) → SameValue x y → dumps x ≡ dumps y
  dumps_same x y (same _) = refl
  dumps_same _ _ (arrays {xs} {ys} h) = ap (λ r. r >>= brackets) (dumps_items_same xs ys h)
  dumps_same _ _ (objects {fs} {gs} h) =
      dumps-object fs ∙ ap (λ r. r >>= braces) (sorted_fields_same fs gs h) ∙ sym (dumps-object gs)

  dumps_items_same : (xs ys : Items) → SameItems xs ys → dumps_items xs ≡ dumps_items ys
  dumps_items_same _ _ no_items = refl
  dumps_items_same _ _ (item {x} {y} {xs} {ys} h hs) =
      ap₂ with_item (dumps_same x y h) (dumps_items_same xs ys hs)

  sorted_fields_same : (fs gs : Fields) → SameFields fs gs → sorted_fields fs ≡ sorted_fields gs
  sorted_fields_same _ _ no_fields = refl
  sorted_fields_same _ _ (entry k {x} {y} {fs} {gs} h hs) =
      sorted_fields-field k x fs
      ∙ ap₂ (with_entry k) (dumps_same x y h) (sorted_fields_same fs gs hs)
      ∙ sym (sorted_fields-field k y gs)
  sorted_fields_same _ _ (exchange k j x y fs h) = sorted_fields-exchange k j x y fs h
  sorted_fields_same _ _ (chain {fs} {gs} {hs} h k) =
      sorted_fields_same fs gs h ∙ sorted_fields_same gs hs k

-- Two dictionaries that hold the same data, each level filled in any order, have the same canonical
-- bytes, or are both refused.
pub canonical_json_bytes_same :
    (fs gs : Fields) → SameFields fs gs → canonical_json_bytes fs ≡ canonical_json_bytes gs
unfolding canonical_json_bytes
canonical_json_bytes_same fs gs h = dumps_same (object fs) (object gs) (objects h)
