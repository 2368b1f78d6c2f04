-- ===== src/Grounding.antt =====
-- apps/api/app/summary_grounding.py: `ground_live_summary`, which takes a provider's summary only
-- with exact quotes from the anchors of the snapshot. Offsets count code points. The searches for
-- the module's three regular expressions are parameters.
pub mod Candidate
pub mod Spans
pub mod Sound
mod Examples
use axit_project.Prelude.{
  ℕ, zero, suc, ◌+◌, ◌-◌, Bool, true, false, ◌&&◌, ◌||◌, not, List, [], ◌∷◌, map, String, Option,
  none, some, ◌==◌, contains, any_by, all_by, if◌then◌else◌, Result, ok, err, require, traverse,
  ◌>>=◌, ◌>>◌, string_eq, nat_eq, text_length,
}
use axit_project.Database.{find_by}
use axit_project.Errors.{Error, summary_grounding_error}
use axit_project.Grounding.Candidate.{
  RuntimeSourceAnchor, SummarySupportCandidate, SummaryItemCandidate, SummarySectionCandidate,
  SummaryCandidate, GroundedSummarySupport, GroundedSummaryItem, GroundedSummarySection,
  GroundedSummary,
}

-- `value[n:]` and `value[:n]`
abbrev pub text_drop : ℕ → String → String
text_drop zero s = s
text_drop (suc n) String.[] = String.[]
text_drop (suc n) (String.◌∷◌ c s) = text_drop n s

abbrev pub text_take : ℕ → String → String
text_take zero s = String.[]
text_take (suc n) String.[] = String.[]
text_take (suc n) (String.◌∷◌ c s) = String.◌∷◌ c (text_take n s)

-- `value[start:end]`
abbrev pub text_slice : ℕ → ℕ → String → String
text_slice start stop s = text_take (stop - start) (text_drop start s)

-- `value.find(quote)`: the lowest index at which the quote stands, `none` for -1
unfoldable pub text_find : String → String → Option ℕ
text_find quote String.[] = if quote == "" then some 0 else none
text_find quote (String.◌∷◌ c s) =
    let later = text_find quote s in
    if text_take (text_length quote) (String.◌∷◌ c s) == quote
    then some 0
    else elim later [ none ↦ none | some n ↦ some (suc n) ]

-- `anchor_by_id`: the entries are the anchors themselves, in their order
unfoldable pub index_anchors :
    List ℕ → List RuntimeSourceAnchor → Result Error (List RuntimeSourceAnchor)
index_anchors seen [] = ok []
index_anchors seen (a ∷ rest) =
    let later = index_anchors (a.id ∷ seen) rest in
    require (not (contains seen a.id)) (summary_grounding_error "duplicate_anchor")
    >> (later >>= λ entries. ok (a ∷ entries))

abbrev pub has_anchor_id : ℕ → RuntimeSourceAnchor → Bool
has_anchor_id id a = a.id == id

-- `len(set(ids)) == len(ids)`
abbrev pub distinct_ids : List ℕ → Bool
distinct_ids [] = true
distinct_ids (x ∷ xs) = not (contains xs x) && distinct_ids xs

-- `set(left) == set(right)`
abbrev pub same_ids : List ℕ → List ℕ → Bool
same_ids left right = all_by (contains right) left && all_by (contains left) right

-- `(source_anchor_id, exact_quote) in seen_supports`
abbrev pub same_support : SummarySupportCandidate → SummarySupportCandidate → Bool
same_support left right =
    left.source_anchor_id == right.source_anchor_id && left.exact_quote == right.exact_quote

abbrev pub support_ids : List GroundedSummarySupport → List ℕ
support_ids = map (λ (g : GroundedSummarySupport). g.source_anchor_id)

-- The searches of `_URL_PATTERN`, `_VERDICT_PATTERN` and `_INSTRUCTION_PATTERN`.
module _ (url_found verdict_found instruction_found : String → Bool) where
  unfoldable pub is_summary_text_isolated : String → Bool
  is_summary_text_isolated value = not (url_found value) && not (verdict_found value)

  unfoldable pub assert_summary_text_is_isolated : String → Result Error (Unit {0})
  unfolding is_summary_text_isolated
  assert_summary_text_is_isolated value =
      require (is_summary_text_isolated value)
        (summary_grounding_error "summary_isolation_violation")

  unfoldable pub assert_anchor_is_summary_safe : RuntimeSourceAnchor → Result Error (Unit {0})
  assert_anchor_is_summary_safe anchor =
      require
        (not (
          anchor.classification == "instruction_like_content"
          || instruction_found anchor.exact_quote))
        (summary_grounding_error "source_prompt_injection")
      >> require (anchor.classification == "factual_claim")
          (summary_grounding_error "unsupported_anchor")

  -- One support of an item: its body in the loop, with the supports seen before it.
  unfoldable pub ground_support :
      List RuntimeSourceAnchor
      → List SummarySupportCandidate
      → SummarySupportCandidate
      → Result Error GroundedSummarySupport
  unfolding find_by assert_anchor_is_summary_safe text_find
  ground_support anchors seen support =
      elim (find_by (has_anchor_id support.source_anchor_id) anchors) [
        | none ↦ err (summary_grounding_error "foreign_anchor")
        | some anchor ↦
            assert_anchor_is_summary_safe anchor
            >> require (not (any_by (same_support support) seen))
                (summary_grounding_error "duplicate_support")
            >> elim (text_find support.exact_quote anchor.exact_quote) [
              | none ↦ err (summary_grounding_error "support_quote_mismatch")
              | some start ↦ ok (record {
                source_anchor_id = support.source_anchor_id;
                exact_quote = support.exact_quote;
                start = start;
                end = start + text_length support.exact_quote;
              })
            ]
      ]

  unfoldable pub ground_supports :
      List RuntimeSourceAnchor
      → List SummarySupportCandidate
      → List SummarySupportCandidate
      → Result Error (List GroundedSummarySupport)
  unfolding ground_support
  ground_supports anchors seen [] = ok []
  ground_supports anchors seen (support ∷ rest) =
      let later = ground_supports anchors (support ∷ seen) rest in
      ground_support anchors seen support >>= λ grounded. later >>= λ more. ok (grounded ∷ more)

  unfoldable pub ground_item :
      List RuntimeSourceAnchor → SummaryItemCandidate → Result Error GroundedSummaryItem
  unfolding assert_summary_text_is_isolated ground_supports
  ground_item anchors item =
      assert_summary_text_is_isolated item.text
      >> require (distinct_ids item.source_anchor_ids) (summary_grounding_error "duplicate_anchor")
      >> (ground_supports anchors [] item.supports >>= λ supports.
          require (same_ids item.source_anchor_ids (support_ids supports))
            (summary_grounding_error "support_anchor_mismatch")
          >> ok (record {
            text = item.text;
            source_anchor_ids = item.source_anchor_ids;
            supports = supports;
          }))

  unfoldable pub ground_section :
      List RuntimeSourceAnchor → SummarySectionCandidate → Result Error GroundedSummarySection
  unfolding assert_summary_text_is_isolated ground_item traverse
  ground_section anchors section =
      assert_summary_text_is_isolated section.heading
      >> (traverse (ground_item anchors) section.items >>= λ items.
          ok (record { heading = section.heading; items = items }))

  unfoldable pub ground_live_summary :
      SummaryCandidate → List RuntimeSourceAnchor → Result Error GroundedSummary
  unfolding index_anchors ground_section traverse
  ground_live_summary candidate anchors = index_anchors [] anchors >>= λ entries.
      require (any_by (λ (a : RuntimeSourceAnchor). true) entries)
        (summary_grounding_error "missing_anchor")
      >> (traverse (ground_section entries) candidate.sections >>= λ sections.
          ok (record { sections = sections }))
