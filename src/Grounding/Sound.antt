-- ===== src/Grounding/Sound.antt =====
-- What `ground_live_summary` lets through, by an independent description: every quote stands in the
-- anchor it names, at the offsets it gives, and every anchor that an item declares has such a quote.
use mathlib.Core.Path.{subst}
use axit_project.Prelude.{
  ℕ, ◌+◌, ◌-◌, ◌≡◌, refl, ap, ◌∙◌, inl, inr, Bool, true, false, List, [], ◌∷◌, String, some, ◌==◌,
  contains, ok, traverse, ◌>>=◌, >>=-eq-ok, Option-cases, Result-cases, string_eq, nat_eq,
  text_length, arith,
}
use axit_project.Database.{find_by}
use axit_project.Grounding.{
  text_take, text_drop, text_slice, text_find, index_anchors, has_anchor_id, distinct_ids,
  support_ids, is_summary_text_isolated, assert_summary_text_is_isolated,
  assert_anchor_is_summary_safe, ground_support, ground_supports, ground_item, ground_section,
  ground_live_summary,
}
use axit_project.Grounding.Spans.{
  Aligned, traverse-Aligned, text_find-exact, index_anchors-kept, same_ids_lem,
}
use axit_project.Grounding.Candidate.{
  RuntimeSourceAnchor, SummarySupportCandidate, SummaryItemCandidate, SummarySectionCandidate,
  SummaryCandidate, GroundedSummarySupport, GroundedSummaryItem, GroundedSummarySection,
  GroundedSummary,
}

-- The quote of a candidate's support, or of a support that is kept.
abbrev pub proposed : SummarySupportCandidate → ℕ × String
proposed s = (s.source_anchor_id, s.exact_quote)

abbrev pub kept_quote : GroundedSummarySupport → ℕ × String
kept_quote g = (g.source_anchor_id, g.exact_quote)

module _ (url_found verdict_found instruction_found : String → Bool) where
  -- A support that is kept: the anchor that it names, and where its quote stands in it.
  pub record IsBacked (anchors : List RuntimeSourceAnchor) (s : SummarySupportCandidate)
      (g : GroundedSummarySupport) : Type 0 where
    pub anchor : RuntimeSourceAnchor
    pub named : find_by (has_anchor_id g.source_anchor_id) anchors ≡ some anchor
    pub factual : anchor.classification ≡ "factual_claim"
    pub harmless : instruction_found anchor.exact_quote ≡ false
    pub exact : text_slice g.start g.end anchor.exact_quote ≡ g.exact_quote
    pub same : proposed s ≡ kept_quote g

  pub record IsGroundedItem (anchors : List RuntimeSourceAnchor) (item : SummaryItemCandidate)
      (g : GroundedSummaryItem) : Type 0 where
    pub text : item.text ≡ g.text
    pub ids : item.source_anchor_ids ≡ g.source_anchor_ids
    pub without_url : url_found g.text ≡ false
    pub without_verdict : verdict_found g.text ≡ false
    pub backed : Aligned (IsBacked anchors) item.supports g.supports
    pub once : distinct_ids g.source_anchor_ids ≡ true
    pub declared : (id : ℕ) → contains g.source_anchor_ids id ≡ contains (support_ids g.supports) id

  pub record IsGroundedSection (anchors : List RuntimeSourceAnchor)
      (section : SummarySectionCandidate) (g : GroundedSummarySection) : Type 0 where
    pub heading : section.heading ≡ g.heading
    pub without_url : url_found g.heading ≡ false
    pub without_verdict : verdict_found g.heading ≡ false
    pub items : Aligned (IsGroundedItem anchors) section.items g.items

  ground_support-IsBacked :
      (anchors : List RuntimeSourceAnchor) (seen : List SummarySupportCandidate)
      (s : SummarySupportCandidate) (g : GroundedSummarySupport)
      → ground_support url_found verdict_found instruction_found anchors seen s ≡ ok g
      → IsBacked anchors s g
  unfolding ground_support assert_anchor_is_summary_safe
  ground_support-IsBacked anchors seen s g h =
      elim (Option-cases (find_by (has_anchor_id s.source_anchor_id) anchors)) [
        | inl missing ↦ absurd (ground arith)
        | inr (anchor, found) ↦ elim (Option-cases (text_find s.exact_quote anchor.exact_quote)) [
          | inl nowhere ↦ absurd (ground arith)
          | inr (start, stands) ↦
              let kept : (anchor.classification == "factual_claim") ≡ true = ground arith in
              let quiet : instruction_found anchor.exact_quote ≡ false = ground arith in
              let stop = start + text_length s.exact_quote in
              let whole : record {
                source_anchor_id = s.source_anchor_id;
                exact_quote = s.exact_quote;
                start = start;
                end = stop;
              }
                  ≡ g =
                ground arith in
              let span : stop - start ≡ text_length s.exact_quote = omega arith in
              subst (IsBacked anchors s) whole (record {
                anchor = anchor;
                named = found;
                factual = (string_eq.beq_iff anchor.classification "factual_claim").0 kept;
                harmless = quiet;
                exact =
                    ap (λ n. text_take n (text_drop start anchor.exact_quote)) span
                    ∙ text_find-exact s.exact_quote anchor.exact_quote start stands;
                same = refl;
              })
        ]
      ]

  ground_supports-Aligned :
      (anchors : List RuntimeSourceAnchor) (seen supports : List SummarySupportCandidate)
      (kept : List GroundedSummarySupport)
      → ground_supports url_found verdict_found instruction_found anchors seen supports ≡ ok kept
      → Aligned (IsBacked anchors) supports kept
  unfolding ground_supports
  ground_supports-Aligned anchors seen [] [] h = tt
  ground_supports-Aligned anchors seen [] (g ∷ more) h = cc
  ground_supports-Aligned anchors seen (s ∷ rest) kept h =
      let (g, first, others) =
        >>=-eq-ok (ground_support url_found verdict_found instruction_found anchors seen s)
          (λ grounded.
            ground_supports url_found verdict_found instruction_found anchors (s ∷ seen) rest
            >>= λ more. ok (grounded ∷ more))
          h in
      let (more, later, returned) =
        >>=-eq-ok
          (ground_supports url_found verdict_found instruction_found anchors (s ∷ seen) rest)
          (λ more. ok (g ∷ more)) others in
      let whole : g ∷ more ≡ kept = cc in
      subst (Aligned (IsBacked anchors) (s ∷ rest)) whole (
        ground_support-IsBacked anchors seen s g first,
        ground_supports-Aligned anchors (s ∷ seen) rest more later,
      )

  ground_item-IsGroundedItem :
      (anchors : List RuntimeSourceAnchor) (item : SummaryItemCandidate) (g : GroundedSummaryItem)
      → ground_item url_found verdict_found instruction_found anchors item ≡ ok g
      → IsGroundedItem anchors item g
  unfolding ground_item assert_summary_text_is_isolated is_summary_text_isolated
  ground_item-IsGroundedItem anchors item g h =
      elim (Result-cases
        (ground_supports url_found verdict_found instruction_found anchors [] item.supports)) [
          | inl (kept, supported) ↦
              let whole : record {
                text = item.text;
                source_anchor_ids = item.source_anchor_ids;
                supports = kept;
              }
                  ≡ g =
                ground arith in
              subst (IsGroundedItem anchors item) whole (record {
                text = refl;
                ids = refl;
                without_url = ground arith;
                without_verdict = ground arith;
                backed = ground_supports-Aligned anchors [] item.supports kept supported;
                once = ground arith;
                declared =
                    λ id. same_ids_lem item.source_anchor_ids (support_ids kept) id (ground arith);
              })
          | inr (e, raised) ↦ absurd (ground arith)
        ]

  ground_section-IsGroundedSection :
      (anchors : List RuntimeSourceAnchor) (section : SummarySectionCandidate)
      (g : GroundedSummarySection)
      → ground_section url_found verdict_found instruction_found anchors section ≡ ok g
      → IsGroundedSection anchors section g
  unfolding ground_section assert_summary_text_is_isolated is_summary_text_isolated
  ground_section-IsGroundedSection anchors section g h =
      elim (Result-cases
        (traverse (ground_item url_found verdict_found instruction_found anchors) section.items)) [
          | inl (kept, grounded) ↦
              let whole : record { heading = section.heading; items = kept } ≡ g = ground arith in
              subst (IsGroundedSection anchors section) whole (record {
                heading = refl;
                without_url = ground arith;
                without_verdict = ground arith;
                items =
                    traverse-Aligned (IsGroundedItem anchors)
                      (ground_item url_found verdict_found instruction_found anchors)
                      (ground_item-IsGroundedItem anchors) section.items kept grounded;
              })
          | inr (e, raised) ↦ absurd (ground arith)
        ]

  -- A summary that `ground_live_summary` returns has the sections of the candidate in their order.
  -- Each heading and each item's text is the candidate's and free of the URL and verdict patterns.
  -- The supports of an item are those proposed for it: each names an anchor of the snapshot that is
  -- a factual claim without the instruction pattern, and the quote is the text between its two
  -- offsets in that anchor. The anchors that an item declares are distinct, and are exactly those
  -- that its supports name.
  pub ground_live_summary-IsGrounded :
      (candidate : SummaryCandidate) (anchors : List RuntimeSourceAnchor)
      (summary : GroundedSummary)
      → ground_live_summary url_found verdict_found instruction_found candidate anchors ≡ ok summary
      → Aligned (IsGroundedSection anchors) candidate.sections summary.sections
  unfolding ground_live_summary
  ground_live_summary-IsGrounded candidate anchors summary h =
      elim (Result-cases (index_anchors [] anchors)) [
        | inl (entries, indexed) ↦
            elim (Result-cases (
              traverse (ground_section url_found verdict_found instruction_found entries)
                candidate.sections)) [
                  | inl (kept, grounded) ↦
                      let whole : kept ≡ summary.sections = ground arith in
                      subst (λ a. Aligned (IsGroundedSection a) candidate.sections summary.sections)
                        (index_anchors-kept [] anchors entries indexed)
                        (subst (Aligned (IsGroundedSection entries) candidate.sections) whole (
                          traverse-Aligned (IsGroundedSection entries)
                            (ground_section url_found verdict_found instruction_found entries)
                            (ground_section-IsGroundedSection entries) candidate.sections kept
                            grounded))
                  | inr (e, raised) ↦ absurd (ground arith)
                ]
        | inr (e, raised) ↦ absurd (ground arith)
      ]
