-- ===== src/Run/Tally.antt =====
-- The numbers of a summary: each item that has ended is counted once.
use resume_platform.Shared.{
  ℕ, ◌+◌, ltb, ap, subst, sym, ◌≡◌, refl, String, Bool, true, false, none, List, [], ◌∷◌, All, ok,
  arith, ◌⊎◌, inl, inr, str_eq, eq_iff, Bool-cases, if◌then◌else◌,
}
use resume_platform.Run.{terminal_item, item_outcome}
use resume_platform.Run.Progress.{Counts, Item, Board, count, is_set}
use resume_platform.Run.Summary.{
  counted, open_item, stopped_item, final_status, summarized, summarize_run,
}
use resume_platform.Run.Rows.{All-zip, count-none}
use resume_platform.Run.History.{History, IsKept, History-Halted}
use resume_platform.Candidate.Transaction.Triples.{
  Triple, Triple-modify, Triple-refuse, Triple-gets, Triple-bind,
}

-- A row that has not ended has no result; one that has ended has the result of one of the five
-- outcomes.
abbrev pub Recorded : Item → Type 0
Recorded i =
    ((i.finished_at ≡ none) × (open_item i.status ≡ true) × (i.result_type ≡ ""))
    ⊎ ((is_set i.finished_at ≡ true)
        × (terminal_item i.status ≡ true)
        × (i.result_type ≡ (item_outcome i.status "" "").result_type))

terminal_item-cases :
    (s : String)
    → terminal_item s ≡ true
    → (s ≡ "success")
      ⊎ (s ≡ "needs_attention")
      ⊎ (s ≡ "failed")
      ⊎ (s ≡ "skipped_manual_change")
      ⊎ (s ≡ "cancelled")
terminal_item-cases s h = ground (
  arith,
  eq_iff s "success",
  eq_iff s "needs_attention",
  eq_iff s "failed",
  eq_iff s "skipped_manual_change",
  eq_iff s "cancelled",
)

open_item-cases :
    (s : String)
    → open_item s ≡ true
    → (s ≡ "pending") ⊎ (s ≡ "processing") ⊎ (s ≡ "waiting_conflict")
open_item-cases s h =
    ground (arith, eq_iff s "pending", eq_iff s "processing", eq_iff s "waiting_conflict")

abbrev once : Bool → ℕ
once b = if b then 1 else 0

-- The five counts of one row.
abbrev results : String → String → ℕ
results result status =
    once (str_eq result "completed")
    + (once (str_eq result "needs_attention")
        + (once (str_eq result "failed")
            + (once (str_eq status "skipped_manual_change") + once (str_eq status "cancelled"))))

ended-once :
    (status result : String)
    → terminal_item status ≡ true
    → result ≡ (item_outcome status "" "").result_type
    → results result status ≡ 1
ended-once status result h t = elim (terminal_item-cases status h) [
  | inl e ↦ rw t (rw e refl)
  | inr (inl e) ↦ rw t (rw e refl)
  | inr (inr (inl e)) ↦ rw t (rw e refl)
  | inr (inr (inr (inl e))) ↦ rw t (rw e refl)
  | inr (inr (inr (inr e))) ↦ rw t (rw e refl)
]

waiting-never :
    (status result : String) → open_item status ≡ true → result ≡ "" → results result status ≡ 0
waiting-never status result h t = elim (open_item-cases status h) [
  | inl e ↦ rw t (rw e refl)
  | inr (inl e) ↦ rw t (rw e refl)
  | inr (inr e) ↦ rw t (rw e refl)
]

Recorded-results :
    (i : Item) → Recorded i → once (is_set i.finished_at) ≡ results i.result_type i.status
Recorded-results i (inl (f, s, r)) = rw (waiting-never i.status i.result_type s r) (rw f refl)
Recorded-results i (inr (f, s, r)) = rw (ended-once i.status i.result_type s r) (rw f refl)

items-sum :
    (is : List Item)
    → All Recorded is
    → count (λ (i : Item). is_set i.finished_at) is
      ≡ count (λ (i : Item). str_eq i.result_type "completed") is
        + (count (λ (i : Item). str_eq i.result_type "needs_attention") is
            + (count (λ (i : Item). str_eq i.result_type "failed") is
                + (count (λ (i : Item). str_eq i.status "skipped_manual_change") is
                    + count (λ (i : Item). str_eq i.status "cancelled") is)))
items-sum [] h = refl
items-sum (i ∷ is) h =
    let head = Recorded-results i h.0 in let tail = items-sum is h.1 in omega arith

Recorded-stopped_item :
    (cancelled : Bool) (code message : String) (now : ℕ) (i : Item)
    → Recorded (stopped_item cancelled code message now i)
Recorded-stopped_item true code message now i = inr (refl, refl, refl)
Recorded-stopped_item false code message now i = inr (refl, refl, refl)

Recorded-IsKept : IsKept Recorded
Recorded-IsKept = record {
  outcome = λ now status code message i h. inr (refl, h, refl);
  stopped = Recorded-stopped_item;
}

-- The number of items that have ended is the sum of those completed, in need of attention, failed,
-- skipped and cancelled.
abbrev pub AddsUp : Counts → Type 0
AddsUp c =
    c.processed_count
    ≡ c.completed_count
      + (c.needs_attention_count + (c.failed_count + (c.skipped_count + c.cancelled_count)))

-- No item failed or needs attention.
abbrev pub NoneFailed : List Item → Type 0
NoneFailed is =
    All
      (λ (i : Item).
        (str_eq i.result_type "failed" ≡ false) × (str_eq i.result_type "needs_attention" ≡ false))
      is

final_status-success :
    (c : Counts) → final_status c ≡ "success" → (c.failed_count ≡ 0) × (c.needs_attention_count ≡ 0)
final_status-success c h = elim (Bool-cases (ltb 0 c.failed_count)) [
  | inl e ↦ absurd (
      let w : "partial_failed" ≡ "success" = rw e at h in
      ground (arith, eq_iff "partial_failed" "success"))
  | inr e ↦ elim (Bool-cases (ltb 0 c.needs_attention_count)) [
    | inl g ↦ absurd (
        let w : "needs_attention" ≡ "success" = rw g at (rw e at h) in
        ground (arith, eq_iff "needs_attention" "success"))
    | inr g ↦ (ground arith, ground arith)
  ]
]

module _ (report : ℕ → ℕ → ℕ → ℕ → String) where
  summarize_run-summarized :
      (finish : Bool) (b : Board)
      → Triple (λ s. s ≡ b) (summarize_run report finish) (λ _ c. c ≡ summarized report finish b)
  unfolding summarize_run
  summarize_run-summarized finish b = Triple-bind _ _ (Triple-gets _) λ asked.
      Triple-bind _ _ (Triple-refuse _ _)
        λ _. Triple-modify _ λ s p. ap (summarized report finish) p.0.0

  summarized-AddsUp :
      (finish : Bool) (b : Board)
      → All Recorded b.items
      → let c = summarized report finish b in
        AddsUp c.run.counts × (finish ≡ true → c.run.status ≡ "success" → NoneFailed c.items)
  summarized-AddsUp false b h = (items-sum b.items h, λ e. absurd (cc))
  summarized-AddsUp true b h = (
    items-sum b.items h,
    λ e f.
        let (failed, attention) = final_status-success (counted b) f in
        All-zip _ _ b.items (count-none _ b.items failed) (count-none _ b.items attention),
  )

  -- After any operations on a run whose rows each have their result or have not ended, a summary
  -- counts every item that has ended exactly once; and where it reports `success`, no item failed or
  -- needs attention.
  pub summarize_run-AddsUp :
      {b₀ b c : Board} (finish : Bool) (u : Unit {0})
      → b₀.run.cancel_requested_at ≡ none
      → All Recorded b₀.items
      → History report b₀ b
      → summarize_run report finish b ≡ ok (u, c)
      → AddsUp c.run.counts × (finish ≡ true → c.run.status ≡ "success" → NoneFailed c.items)
  summarize_run-AddsUp {b₀} {b} {c} finish u free h before e =
      let fresh : is_set b₀.run.cancel_requested_at ≡ false = rw free refl in
      let at_b =
        History-Halted Recorded-IsKept false report ((λ e. absurd (cc)), (λ e. absurd (cc)), h)
          before in
      let done = (summarize_run-summarized finish b).at b c u refl e in
      subst
        (λ d. AddsUp d.run.counts × (finish ≡ true → d.run.status ≡ "success" → NoneFailed d.items))
        (sym done) (summarized-AddsUp finish b at_b.2)
