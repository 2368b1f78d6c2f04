-- ===== src/Activity/Readable.antt =====
-- How a key is read back: where an identity ends in it, and which type it is of.
use Prim.Native.Char.{Char}
use Prim.Native.String.{◌++◌ as text_append}
use Prim.Native.String.append
use mathlib.Core.Path.{subst}
use axit_project.Prelude.{
  ◌≡◌, refl, sym, ap, ◌∙◌, inl, inr, Bool, true, false, ◌&&◌, ◌||◌, String, code, List, [], ◌∷◌,
  ◌==◌, contains, all_by, arith, Bool-cases, ok, string_eq,
}
use axit_project.Activity.{supported_audit_event_types}
use axit_project.Activity.Keys.{
  Identity, key_of, event_pieces, build_event_key, starts_with, last_part,
}
use axit_project.Activity.Distinct.{
  without_colon, Token, one, hole, letters, tokens, colon_next, separates, apart, both_ways,
  all_apart,
}

-- Texts without a colon that stand before one.
pub same_starts :
    (s t : String) (c d : Char) (x y : String)
    → code c ≡ 58
    → code d ≡ 58
    → without_colon s ≡ true
    → without_colon t ≡ true
    → text_append s (String.◌∷◌ c x) ≡ text_append t (String.◌∷◌ d y)
    → s ≡ t
same_starts String.[] String.[] c d x y c_colon d_colon hs ht h = refl
same_starts String.[] (String.◌∷◌ b t) c d x y c_colon d_colon hs ht h =
    let heads = sym (append.nil (String.◌∷◌ c x)) ∙ h ∙ append.cons b t (String.◌∷◌ d y) in
    let first : c ≡ b = cc in absurd (ground (arith, ap code first))
same_starts (String.◌∷◌ a s) String.[] c d x y c_colon d_colon hs ht h =
    let heads = sym (append.cons a s (String.◌∷◌ c x)) ∙ h ∙ append.nil (String.◌∷◌ d y) in
    let first : a ≡ d = cc in absurd (ground (arith, ap code first))
same_starts (String.◌∷◌ a s) (String.◌∷◌ b t) c d x y c_colon d_colon hs ht h =
    let wholes = sym (append.cons a s (String.◌∷◌ c x)) ∙ h ∙ append.cons b t (String.◌∷◌ d y) in
    let later = same_starts s t c d x y c_colon d_colon (ground arith) (ground arith) cc in cc

-- Every identity stands before a colon or at the end.
unfoldable pub readable : List Token → Bool
readable [] = true
readable (one c ∷ rest) = readable rest
readable (hole name ∷ []) = true
readable (hole name ∷ next ∷ rest) = colon_next (next ∷ rest) && readable (next ∷ rest)

reads_both : String → Bool
unfolding readable tokens letters event_pieces
reads_both event_type =
    readable (tokens (event_pieces event_type true))
    && readable (tokens (event_pieces event_type false))

all_readable : all_by reads_both supported_audit_event_types ≡ true
unfolding reads_both starts_with last_part
all_readable = refl

and_parts : (a b : Bool) → (a && b) ≡ true → (a ≡ true) × (b ≡ true)
and_parts a b h = (ground arith, ground arith)

by_flag : (P : Bool → Type 0) → P true → P false → (b : Bool) → P b
by_flag P on off true = on
by_flag P on off false = off

four_parts :
    (a b c d : Bool) → (a && b && c && d) ≡ true → (a ≡ true) × (b ≡ true) × (c ≡ true) × (d ≡ true)
four_parts a b c d h = (ground arith, ground arith, ground arith, ground arith)

or_right : (a b : Bool) → a ≡ false → (a || b) ≡ true → b ≡ true
or_right a b h k = ground arith

all_by-contains :
    (test : String → Bool) (xs : List String) (x : String)
    → all_by test xs ≡ true
    → contains xs x ≡ true
    → test x ≡ true
all_by-contains test [] x all there = absurd (ground arith)
all_by-contains test (y ∷ xs) x all there = elim (Bool-cases (y == x)) [
  | inl hit ↦ subst (λ z. test z ≡ true) ((string_eq.beq_iff y x).0 hit) (ground arith)
  | inr miss ↦ all_by-contains test xs x (ground arith) (ground arith)
]

-- A key that was built: the type is supported, and its pieces have texts.
pub built :
    (identity : Identity) (event_type : String) (reconciled : Bool) (key : String)
    → build_event_key event_type identity reconciled ≡ ok key
    → (contains supported_audit_event_types event_type ≡ true)
      × (key_of identity (event_pieces event_type reconciled) ≡ ok key)
unfolding build_event_key
built identity event_type reconciled key h =
    elim (Bool-cases (contains supported_audit_event_types event_type)) [
      | inl supported ↦ (supported, rw supported at h)
      | inr other ↦ absurd (ground (arith, rw other at h))
    ]

pub reads :
    (event_type : String) (reconciled : Bool)
    → contains supported_audit_event_types event_type ≡ true
    → readable (tokens (event_pieces event_type reconciled)) ≡ true
unfolding reads_both
reads event_type reconciled known =
    let both =
      and_parts (readable (tokens (event_pieces event_type true)))
        (readable (tokens (event_pieces event_type false)))
        (all_by-contains reads_both supported_audit_event_types event_type all_readable known) in
    by_flag (λ b. readable (tokens (event_pieces event_type b)) ≡ true) both.0 both.1 reconciled

pub all_separate :
    (left right : String) (left_reconciled right_reconciled : Bool)
    → contains supported_audit_event_types left ≡ true
    → contains supported_audit_event_types right ≡ true
    → (left == right) ≡ false
    → separates
        (tokens (event_pieces left left_reconciled))
        (tokens (event_pieces right right_reconciled))
      ≡ true
unfolding both_ways apart
all_separate left right left_reconciled right_reconciled known other_known miss =
    let row =
      all_by-contains (λ l. all_by (both_ways l) supported_audit_event_types)
        supported_audit_event_types left all_apart known in
    let pair = all_by-contains (both_ways left) supported_audit_event_types right row other_known in
    let (on_on, on_off, off_on, off_off) =
      four_parts (apart left true right true) (apart left true right false)
        (apart left false right true) (apart left false right false) pair in
    or_right (left == right) _ miss (
      by_flag (λ a. apart left a right right_reconciled ≡ true)
        (by_flag (λ b. apart left true right b ≡ true) on_on on_off right_reconciled)
        (by_flag (λ b. apart left false right b ≡ true) off_on off_off right_reconciled)
        left_reconciled)
