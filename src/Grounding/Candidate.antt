-- ===== src/Grounding/Candidate.antt =====
-- The values of apps/api/app/summary_grounding.py: the anchors, what a provider proposes, and what
-- is kept. A function `new_…` is the constructor with its `__post_init__`. An anchor's confidence, a
-- float that the grounding does not read, and its constructor's checks are left out.
use axit_project.Prelude.{
  ℕ, Bool, true, false, not, List, [], ◌∷◌, String, Option, Result, ok, require, is_blank, ◌>>◌,
}
use axit_project.Errors.{Error, value_error}

pub record RuntimeSourceAnchor : Type 0 where
  pub id : ℕ
  pub revision_id : ℕ
  pub exact_quote : String
  pub classification : String
  pub participant : Option String
  pub block_type : String

pub record SummarySupportCandidate : Type 0 where
  pub source_anchor_id : ℕ
  pub exact_quote : String

unfoldable pub new_summary_support_candidate : ℕ → String → Result Error SummarySupportCandidate
new_summary_support_candidate anchor_id quote =
    require (not (is_blank quote)) value_error
    >> ok (record { source_anchor_id = anchor_id; exact_quote = quote })

pub record SummaryItemCandidate : Type 0 where
  pub text : String
  pub source_anchor_ids : List ℕ
  pub supports : List SummarySupportCandidate

abbrev is_present {ℓ} : {A : Type ℓ} → List A → Bool
is_present [] = false
is_present (x ∷ xs) = true

unfoldable pub new_summary_item_candidate :
    String → List ℕ → List SummarySupportCandidate → Result Error SummaryItemCandidate
new_summary_item_candidate text anchor_ids supports =
    require (not (is_blank text)) value_error
    >> require (is_present anchor_ids) value_error
    >> require (is_present supports) value_error
    >> ok (record { text = text; source_anchor_ids = anchor_ids; supports = supports })

pub record SummarySectionCandidate : Type 0 where
  pub heading : String
  pub items : List SummaryItemCandidate

unfoldable pub new_summary_section_candidate :
    String → List SummaryItemCandidate → Result Error SummarySectionCandidate
new_summary_section_candidate heading items =
    require (not (is_blank heading)) value_error
    >> require (is_present items) value_error
    >> ok (record { heading = heading; items = items })

pub record SummaryCandidate : Type 0 where
  pub sections : List SummarySectionCandidate

unfoldable pub new_summary_candidate : List SummarySectionCandidate → Result Error SummaryCandidate
new_summary_candidate sections =
    require (is_present sections) value_error >> ok (record { sections = sections })

pub record GroundedSummarySupport : Type 0 where
  pub source_anchor_id : ℕ
  pub exact_quote : String
  pub start : ℕ
  pub end : ℕ

pub record GroundedSummaryItem : Type 0 where
  pub text : String
  pub source_anchor_ids : List ℕ
  pub supports : List GroundedSummarySupport

pub record GroundedSummarySection : Type 0 where
  pub heading : String
  pub items : List GroundedSummaryItem

pub record GroundedSummary : Type 0 where
  pub sections : List GroundedSummarySection
