-- ===== src/Activity/Recipients.antt =====
-- Who is notified of a comment.
use axit_project.Prelude.{
  ℕ, ◌+◌, ◌≡◌, refl, Bool, ◌&&◌, not, List, [], ◌∷◌, ◌==◌, contains, contains-filter_by, filter_by,
  arith, nat_eq, nat_eqb_iff, if◌then◌else◌,
}
use axit_project.Activity.{first_occurrences, plan_comment_recipients}

first_occurrences-contains :
    (seen xs : List ℕ) (a : ℕ)
    → contains (first_occurrences seen xs) a ≡ (contains xs a && not (contains seen a))
unfolding first_occurrences
first_occurrences-contains seen [] a = refl
first_occurrences-contains seen (x ∷ rest) a = ground (
  arith,
  first_occurrences-contains seen rest a,
  first_occurrences-contains (x ∷ seen) rest a,
  nat_eqb_iff x a,
)

-- How often a value stands in a list.
abbrev pub occurrences : ℕ → List ℕ → ℕ
occurrences a [] = 0
occurrences a (x ∷ rest) = let more = occurrences a rest in if x == a then 1 + more else more

first_occurrences-once :
    (seen xs : List ℕ) (a : ℕ)
    → occurrences a (first_occurrences seen xs)
      ≡ (if contains xs a && not (contains seen a) then 1 else 0)
unfolding first_occurrences
first_occurrences-once seen [] a = refl
first_occurrences-once seen (x ∷ rest) a = ground (
  arith,
  first_occurrences-once seen rest a,
  first_occurrences-once (x ∷ seen) rest a,
  nat_eqb_iff x a,
)

module _ (actor : ℕ) (members mentioned : List ℕ) where
  abbrev is_mentioned : ℕ → Bool
  is_mentioned user = not (user == actor) && contains members user

  -- A user is notified once of a mention when mentioned, a member and not the actor; once of the
  -- comment when a member, neither the actor nor mentioned; and otherwise not at all.
  pub plan_comment_recipients-once :
      (user : ℕ)
      → (occurrences user (plan_comment_recipients actor members mentioned).mention ≡ (
          if contains mentioned user && contains members user && not (user == actor) then 1 else 0))
        × (occurrences user (plan_comment_recipients actor members mentioned).comment ≡ (
            if contains members user && not (contains mentioned user) && not (user == actor)
            then 1
            else 0))
  unfolding plan_comment_recipients
  plan_comment_recipients-once user =
      let mentions = first_occurrences [] (filter_by is_mentioned mentioned) in
      (
        ground (
          arith,
          first_occurrences-once [] (filter_by is_mentioned mentioned) user,
          contains-filter_by is_mentioned mentioned user,
        ),
        ground (
          arith,
          first_occurrences-once []
              (filter_by (λ u. not (u == actor) && not (contains mentions u)) members) user,
          contains-filter_by (λ u. not (u == actor) && not (contains mentions u)) members user,
          first_occurrences-contains [] (filter_by is_mentioned mentioned) user,
          contains-filter_by is_mentioned mentioned user,
        ),
      )
