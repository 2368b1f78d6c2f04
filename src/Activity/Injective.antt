-- ===== src/Activity/Injective.antt =====
-- A key of `build_event_key` determines the event: its type, and the identities in it.
use mathlib.Core.Path.{subst}
use text.Mathlib.TextLemmas.{append-nil}
use axit_project.Prelude.{
  ◌≡◌, refl, sym, ap, ◌∙◌, inl, inr, Bool, true, String, code, Option, none, some, List, [], ◌∷◌,
  ◌==◌, All, nat_eqb_iff, arith, Result-cases, Bool-cases, Option-cases, ok, err, string_eq,
}
use axit_project.Errors.{value_error}
use axit_project.Activity.Keys.{
  Piece, literal, field, Identity, piece_text, key_of, event_pieces, build_event_key,
}
use axit_project.Activity.Readable.{same_starts, readable, built, reads, all_separate}
use axit_project.Activity.Distinct.{
  Token, one, hole, letters, tokens, value_of, value_of-given, value_of-plain, render,
  key_of-eq_render, separates_lem, same_ends, IsPlain,
}

module _ (left right : Identity) (left_plain : IsPlain left) (right_plain : IsPlain right) where
  abbrev Agrees : List Token → Type 0
  Agrees [] = Unit
  Agrees (one c ∷ rest) = Agrees rest
  Agrees (hole name ∷ rest) = (value_of left name ≡ value_of right name) × Agrees rest

  renders-Agrees :
      (xs : List Token) → readable xs ≡ true → render left xs ≡ render right xs → Agrees xs
  unfolding render readable
  renders-Agrees [] fits h = tt
  renders-Agrees (one c ∷ rest) fits h = renders-Agrees rest fits cc
  renders-Agrees (hole n ∷ []) fits h =
      (sym (append-nil (value_of left n)) ∙ h ∙ append-nil (value_of right n), tt)
  renders-Agrees (hole n ∷ one c ∷ rest) fits h =
      let colon : code c ≡ 58 = (nat_eqb_iff (code c) 58).0 (ground arith) in
      let ends =
        same_ends (value_of left n) (value_of right n) c c (render left rest) (render right rest)
          colon colon (value_of-plain left n left_plain) (value_of-plain right n right_plain) h in
      (
        same_starts (value_of left n) (value_of right n) c c (render left rest) (render right rest)
            colon colon (value_of-plain left n left_plain) (value_of-plain right n right_plain) h,
        renders-Agrees rest (ground arith) cc,
      )
  renders-Agrees (hole n ∷ hole m ∷ rest) fits h = absurd (ground arith)

  letters-Agrees : (s : String) (rest : List Token) → Agrees (letters s rest) → Agrees rest
  unfolding letters
  letters-Agrees String.[] rest h = h
  letters-Agrees (String.◌∷◌ c s) rest h = letters-Agrees s rest h

  given_value :
      (identity : Identity) (name : String) (rest : List Piece) (key : String)
      → key_of identity (field name ∷ rest) ≡ ok key
      → piece_text identity (field name) ≡ ok (value_of identity name)
  unfolding key_of
  given_value identity name rest key h = elim (Option-cases (identity name)) [
    | inl missing ↦ absurd (ground (arith, missing))
    | inr (s, given) ↦
        ap (λ (o : Option String). elim o [ none ↦ err value_error | some s ↦ ok s ]) given
        ∙ ap ok (sym (value_of-given identity name s given))
  ]

  later_key :
      (identity : Identity) (p : Piece) (rest : List Piece) (key : String)
      → key_of identity (p ∷ rest) ≡ ok key
      → (t : String) × (key_of identity rest ≡ ok t)
  unfolding key_of
  later_key identity p rest key h = elim (Result-cases (key_of identity rest)) [
    | inl (t, k) ↦ (t, k)
    | inr (e, k) ↦ elim (Result-cases (piece_text identity p)) [
      | inl (s, g) ↦ absurd (ground (arith, k, g))
      | inr (x, g) ↦ absurd (ground (arith, k, g))
    ]
  ]

  agreed :
      (pieces : List Piece) (key other : String)
      → key_of left pieces ≡ ok key
      → key_of right pieces ≡ ok other
      → Agrees (tokens pieces)
      → All (λ p. piece_text left p ≡ piece_text right p) pieces
  unfolding tokens
  agreed [] key other h k same = tt
  agreed (literal s ∷ rest) key other h k same =
      let (t, h') = later_key left (literal s) rest key h in
      let (u, k') = later_key right (literal s) rest other k in
      (refl, agreed rest t u h' k' (letters-Agrees s (tokens rest) same))
  agreed (field name ∷ rest) key other h k same =
      let (t, h') = later_key left (field name) rest key h in
      let (u, k') = later_key right (field name) rest other k in
      (
        given_value left name rest key h ∙ ap ok same.0 ∙ sym (given_value right name rest other k),
        agreed rest t u h' k' same.1,
      )

  -- Two events whose identities have no colon get the same key only when they have the same type; when both are reconciled or neither is, they also agree on
  -- every identity that stands in the key.
  pub build_event_key-injective :
      (event_type other_type : String) (reconciled other_reconciled : Bool) (key : String)
      → build_event_key event_type left reconciled ≡ ok key
      → build_event_key other_type right other_reconciled ≡ ok key
      → (event_type ≡ other_type)
        × (reconciled ≡ other_reconciled
            → All
                (λ p. piece_text left p ≡ piece_text right p)
                (event_pieces event_type reconciled))
  build_event_key-injective event_type other_type reconciled other_reconciled key h k =
      let (known, pieces) = built left event_type reconciled key h in
      let (other_known, other_pieces) = built right other_type other_reconciled key k in
      let same =
        sym (key_of-eq_render left (event_pieces event_type reconciled) key pieces)
        ∙ key_of-eq_render right (event_pieces other_type other_reconciled) key other_pieces in
      let same_type : event_type ≡ other_type = elim (Bool-cases (event_type == other_type)) [
        | inl hit ↦ (string_eq.beq_iff event_type other_type).0 hit
        | inr miss ↦ absurd (
            separates_lem left right left_plain right_plain _ _
              (all_separate event_type other_type reconciled other_reconciled known other_known
                miss)
              same)
      ] in
      (
        same_type,
        λ same_flag.
            let same_pieces : event_pieces other_type other_reconciled
                ≡ event_pieces event_type reconciled =
              ap (λ t. event_pieces t other_reconciled) (sym same_type)
              ∙ ap (event_pieces event_type) (sym same_flag) in
            agreed (event_pieces event_type reconciled) key key pieces
              (subst (λ ps. key_of right ps ≡ ok key) same_pieces other_pieces)
              (renders-Agrees (tokens (event_pieces event_type reconciled))
                (reads event_type reconciled known)
                (subst
                  (λ ps.
                    render left (tokens (event_pieces event_type reconciled))
                    ≡ render right (tokens ps))
                  same_pieces same)),
      )
