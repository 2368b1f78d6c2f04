-- ===== src/Activity/Distinct.antt =====
-- The keys of `build_event_key` tell the event types apart.
use Prim.Native.Char.{Char}
use Prim.Native.String.{◌++◌ as text_append}
use Prim.Native.String.append
use mathlib.Core.Path.{subst}
use axit_project.Prelude.{
  ◌≡◌, ◌≢◌, refl, sym, ap, ◌∙◌, inl, inr, Bool, true, false, ◌&&◌, ◌||◌, not, String, code, Option,
  none, some, List, [], ◌∷◌, ◌==◌, all_by, nat_eqb, nat_eqb_iff, arith, if◌then◌else◌, Result-cases,
  Option-cases, ok, string_eq,
}
use axit_project.Activity.{supported_audit_event_types}
use axit_project.Activity.Keys.{
  Piece, literal, field, Identity, key_of, event_pieces, starts_with, last_part,
}

-- No colon is in the text.
abbrev pub without_colon : String → Bool
without_colon String.[] = true
without_colon (String.◌∷◌ c s) = not (nat_eqb (code c) 58) && without_colon s

-- A key as single characters and identities.
pub data Token : Type 0 where
  one : Char → Token
  hole : String → Token

unfoldable pub letters : String → List Token → List Token
letters String.[] rest = rest
letters (String.◌∷◌ c s) rest = one c ∷ letters s rest

unfoldable pub tokens : List Piece → List Token
unfolding letters
tokens [] = []
tokens (literal s ∷ rest) = letters s (tokens rest)
tokens (field name ∷ rest) = hole name ∷ tokens rest

abbrev pub value_of : Identity → String → String
value_of identity name = elim (identity name) [ none ↦ "" | some s ↦ s ]

pub value_of-given :
    (identity : Identity) (name s : String) → identity name ≡ some s → value_of identity name ≡ s
value_of-given identity name s given =
    ap (λ (o : Option String). elim o [ none ↦ "" | some s ↦ s ]) given

unfoldable pub render : Identity → List Token → String
render identity [] = ""
render identity (one c ∷ rest) = String.◌∷◌ c (render identity rest)
render identity (hole name ∷ rest) = text_append (value_of identity name) (render identity rest)

render-letters :
    (identity : Identity) (s : String) (rest : List Token)
    → render identity (letters s rest) ≡ text_append s (render identity rest)
unfolding render letters
render-letters identity String.[] rest = sym (append.nil (render identity rest))
render-letters identity (String.◌∷◌ c s) rest =
    ap (λ t. String.◌∷◌ c t) (render-letters identity s rest)
    ∙ sym (append.cons c s (render identity rest))

pub key_of-eq_render :
    (identity : Identity) (pieces : List Piece) (key : String)
    → key_of identity pieces ≡ ok key
    → key ≡ render identity (tokens pieces)
unfolding key_of render tokens
key_of-eq_render identity [] key h = cc
key_of-eq_render identity (literal s ∷ rest) key h = elim (Result-cases (key_of identity rest)) [
  | inl (t, k) ↦
      let later = key_of-eq_render identity rest t k in
      let whole : key ≡ text_append s t = ground (arith, k) in
      whole ∙ ap (text_append s) later ∙ sym (render-letters identity s (tokens rest))
  | inr (e, k) ↦ absurd (ground (arith, k))
]
key_of-eq_render identity (field name ∷ rest) key h = elim (Option-cases (identity name)) [
  | inl missing ↦ absurd (ground (arith, missing))
  | inr (s, given) ↦ elim (Result-cases (key_of identity rest)) [
    | inl (t, k) ↦
        let later = key_of-eq_render identity rest t k in
        let whole : key ≡ text_append s t = ground (arith, k, given) in
        let value = value_of-given identity name s given in
        whole
        ∙ ap (text_append s) later
        ∙ ap (λ v. text_append v (render identity (tokens rest))) (sym value)
    | inr (e, k) ↦ absurd (ground (arith, k, given))
  ]
]

abbrev pub colon_next : List Token → Bool
colon_next (one c ∷ _) = nat_eqb (code c) 58
colon_next _ = false

-- The two keys differ whatever the identities are, when these have no colon.
unfoldable pub separates : List Token → List Token → Bool
separates [] [] = false
separates [] (one c ∷ ys) = true
separates [] (hole n ∷ ys) = false
separates (one c ∷ xs) [] = true
separates (one c ∷ xs) (one d ∷ ys) =
    let rest = separates xs ys in if nat_eqb (code c) (code d) then rest else true
separates (one c ∷ xs) (hole n ∷ ys) = false
separates (hole n ∷ xs) [] = false
separates (hole n ∷ xs) (one d ∷ ys) = false
separates (hole n ∷ xs) (hole m ∷ ys) = colon_next xs && colon_next ys && separates xs ys

-- Texts without a colon that end at a colon.
pub same_ends :
    (s t : String) (c d : Char) (x y : String)
    → code c ≡ 58
    → code d ≡ 58
    → without_colon s ≡ true
    → without_colon t ≡ true
    → text_append s (String.◌∷◌ c x) ≡ text_append t (String.◌∷◌ d y)
    → String.◌∷◌ c x ≡ String.◌∷◌ d y
same_ends String.[] String.[] c d x y c_colon d_colon hs ht h =
    sym (append.nil (String.◌∷◌ c x)) ∙ h ∙ append.nil (String.◌∷◌ d y)
same_ends String.[] (String.◌∷◌ b t) c d x y c_colon d_colon hs ht h =
    let heads = sym (append.nil (String.◌∷◌ c x)) ∙ h ∙ append.cons b t (String.◌∷◌ d y) in
    let first : c ≡ b = cc in absurd (ground (arith, ap code first))
same_ends (String.◌∷◌ a s) String.[] c d x y c_colon d_colon hs ht h =
    let heads = sym (append.cons a s (String.◌∷◌ c x)) ∙ h ∙ append.nil (String.◌∷◌ d y) in
    let first : a ≡ d = cc in absurd (ground (arith, ap code first))
same_ends (String.◌∷◌ a s) (String.◌∷◌ b t) c d x y c_colon d_colon hs ht h =
    let wholes = sym (append.cons a s (String.◌∷◌ c x)) ∙ h ∙ append.cons b t (String.◌∷◌ d y) in
    same_ends s t c d x y c_colon d_colon (ground arith) (ground arith) cc

-- An identity whose values have no colon.
abbrev pub IsPlain : Identity → Type 0
IsPlain identity = (name value : String) → identity name ≡ some value → without_colon value ≡ true

pub value_of-plain :
    (identity : Identity) (name : String)
    → IsPlain identity
    → without_colon (value_of identity name) ≡ true
value_of-plain identity name plain = elim (Option-cases (identity name)) [
  | inl missing ↦
      subst (λ v. without_colon v ≡ true)
        (sym (ap (λ (o : Option String). elim o [ none ↦ "" | some s ↦ s ]) missing)) refl
  | inr (value, given) ↦
      subst (λ v. without_colon v ≡ true) (sym (value_of-given identity name value given))
        (plain name value given)
]

module _ (left right : Identity) (left_plain : IsPlain left) (right_plain : IsPlain right) where
  after_holes :
      (n m : String) (xs ys : List Token)
      → colon_next xs ≡ true
      → colon_next ys ≡ true
      → render left (hole n ∷ xs) ≡ render right (hole m ∷ ys)
      → render left xs ≡ render right ys
  unfolding render
  after_holes n m (one c ∷ xs) (one d ∷ ys) hx hy h =
      same_ends (value_of left n) (value_of right m) c d (render left xs) (render right ys)
        ((nat_eqb_iff (code c) 58).0 hx) ((nat_eqb_iff (code d) 58).0 hy)
        (value_of-plain left n left_plain) (value_of-plain right m right_plain) h
  after_holes n m _ _ hx hy h = absurd (ground arith)

  pub separates_lem :
      (xs ys : List Token) → separates xs ys ≡ true → render left xs ≢ render right ys
  unfolding separates render
  separates_lem [] [] apart h = absurd (ground arith)
  separates_lem [] (one c ∷ ys) apart h = absurd cc
  separates_lem [] (hole n ∷ ys) apart h = absurd (ground arith)
  separates_lem (one c ∷ xs) [] apart h = absurd cc
  separates_lem (one c ∷ xs) (one d ∷ ys) apart h =
      let first : c ≡ d = cc in separates_lem xs ys (ground (arith, ap code first)) cc
  separates_lem (one c ∷ xs) (hole n ∷ ys) apart h = absurd (ground arith)
  separates_lem (hole n ∷ xs) [] apart h = absurd (ground arith)
  separates_lem (hole n ∷ xs) (one d ∷ ys) apart h = absurd (ground arith)
  separates_lem (hole n ∷ xs) (hole m ∷ ys) apart h =
      separates_lem xs ys (ground arith) (after_holes n m xs ys (ground arith) (ground arith) h)

-- The keys of two types, each with an identity of its own, are told apart.
unfoldable pub apart : String → Bool → String → Bool → Bool
unfolding separates tokens event_pieces letters
apart left left_reconciled right right_reconciled =
    left == right
    || separates (tokens (event_pieces left left_reconciled))
        (tokens (event_pieces right right_reconciled))

unfoldable pub both_ways : String → String → Bool
unfolding apart
both_ways left right =
    apart left true right true
    && apart left true right false
    && apart left false right true
    && apart left false right false

pub all_apart :
    all_by (λ left. all_by (both_ways left) supported_audit_event_types) supported_audit_event_types
    ≡ true
unfolding both_ways starts_with last_part
all_apart = refl
