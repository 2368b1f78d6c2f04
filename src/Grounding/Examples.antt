-- ===== src/Grounding/Examples.antt =====
-- A summary of one anchor, grounded and refused.
use axit_project.Prelude.{
  ℕ, ◌≡◌, refl, Bool, true, false, [], ◌∷◌, String, none, some, Result, ok, err, ◌>>=◌, traverse,
  is_blank, text_length,
}
use axit_project.Database.{find_by}
use axit_project.Errors.{Error, summary_grounding_error, value_error}
use axit_project.Grounding.{
  text_find, index_anchors, is_summary_text_isolated, assert_summary_text_is_isolated,
  assert_anchor_is_summary_safe, ground_support, ground_supports, ground_item, ground_section,
  ground_live_summary,
}
use axit_project.Grounding.Candidate.{
  RuntimeSourceAnchor, SummaryCandidate, GroundedSummary, new_summary_support_candidate,
  new_summary_item_candidate, new_summary_section_candidate, new_summary_candidate,
}
use axit_project.Grounding.Spans.{Aligned}
use axit_project.Grounding.Sound.{IsGroundedSection, ground_live_summary-IsGrounded}

unfoldable mentions : String → String → Bool
unfolding text_find
mentions quote s = elim (text_find quote s) [ none ↦ false | some n ↦ true ]

abbrev minutes : RuntimeSourceAnchor
minutes = record {
  id = 7;
  revision_id = 3;
  exact_quote = "We met twice.";
  classification = "factual_claim";
  participant = none;
  block_type = "paragraph";
}

-- One item with one quote, under an anchor that is given.
unfoldable proposal : ℕ → String → Result Error SummaryCandidate
unfolding new_summary_support_candidate new_summary_item_candidate new_summary_section_candidate
    new_summary_candidate is_blank
proposal anchor_id quote = new_summary_support_candidate anchor_id quote >>= λ support.
    new_summary_item_candidate "Two meetings" (anchor_id ∷ []) (support ∷ []) >>= λ item.
    new_summary_section_candidate "Meetings" (item ∷ []) >>= λ section.
    new_summary_candidate (section ∷ [])

abbrev sample : SummaryCandidate
sample = record {
  sections =
      record {
        heading = "Meetings";
        items =
            record {
              text = "Two meetings";
              source_anchor_ids = 7 ∷ [];
              supports = record { source_anchor_id = 7; exact_quote = "met twice" } ∷ [];
            }
            ∷ [];
      }
      ∷ [];
}

abbrev sample_summary : GroundedSummary
sample_summary = record {
  sections =
      record {
        heading = "Meetings";
        items =
            record {
              text = "Two meetings";
              source_anchor_ids = 7 ∷ [];
              supports =
                  record { source_anchor_id = 7; exact_quote = "met twice"; start = 3; end = 12 }
                  ∷ [];
            }
            ∷ [];
      }
      ∷ [];
}

unfoldable ground_sample : SummaryCandidate → Result Error GroundedSummary
unfolding ground_live_summary index_anchors is_summary_text_isolated assert_summary_text_is_isolated
    assert_anchor_is_summary_safe ground_support ground_supports ground_item ground_section mentions
    traverse find_by text_find text_length
ground_sample candidate =
    ground_live_summary (mentions "http") (mentions "verdict") (mentions "ignore") candidate
      (minutes ∷ [])

constructed : proposal 7 "met twice" ≡ ok sample
unfolding proposal
constructed = refl

refused_blank : proposal 7 "  " ≡ err value_error
unfolding proposal
refused_blank = refl

grounded : ground_sample sample ≡ ok sample_summary
unfolding ground_sample
grounded = refl

foreign :
    (proposal 8 "met twice" >>= ground_sample) ≡ err (summary_grounding_error "foreign_anchor")
unfolding proposal ground_sample
foreign = refl

misquoted :
    (proposal 7 "met once" >>= ground_sample)
    ≡ err (summary_grounding_error "support_quote_mismatch")
unfolding proposal ground_sample
misquoted = refl

ground_live_summary-IsGrounded_example :
    Aligned
      (IsGroundedSection (mentions "http") (mentions "verdict") (mentions "ignore") (minutes ∷ []))
      sample.sections
      sample_summary.sections
unfolding ground_sample
ground_live_summary-IsGrounded_example =
    ground_live_summary-IsGrounded (mentions "http") (mentions "verdict") (mentions "ignore") sample
      (minutes ∷ []) sample_summary grounded
