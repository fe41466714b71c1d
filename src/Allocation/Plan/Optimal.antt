-- ===== src/Allocation/Plan/Optimal.antt =====
-- The choice made for one member: the best eligible demand, or none where none is eligible.
use resume_platform.Shared.{
  String, ◌≡◌, refl, true, false, List, [], ◌∷◌, ◌⊎◌, inl, inr, sym, lex_less, lex_less_irrefl,
  lex_less-keep, lex_less_asym, lex_less_trans, All, In, Bool-cases, arith, if◌then◌else◌,
}
use resume_platform.Allocation.Types.{
  AllocationMember, AllocationDemand, AllocationDecision, wait, assign,
}
use resume_platform.Allocation.Plan.{
  Ledger, member_tags, open_demand, assignment, consider, choose, waiting, decide,
}
use resume_platform.Allocation.Plan.Choice.{
  eligible, rank, chosen, consider-eligible, consider-ineligible,
}

module _ (tags : String → String) (m : AllocationMember) (s : Ledger) where
  -- No eligible demand of the list comes before d.
  abbrev IsBest : AllocationDemand → List AllocationDemand → Type 0
  IsBest d =
      All (λ e. eligible tags m s e ≡ true → lex_less (rank tags m s e) (rank tags m s d) ≡ false)

  -- Where the pass ends that holds c: at c or at an eligible demand before c.
  abbrev Ends : AllocationDemand → List AllocationDemand → AllocationDecision → Type 0
  Ends c ds r =
      (d : AllocationDemand) × ((d ≡ c)
        ⊎ (In d ds
            × (eligible tags m s d ≡ true)
            × (lex_less (rank tags m s d) (rank tags m s c) ≡ true)))
      × (r ≡ chosen tags m s d)
      × IsBest d ds

  order-chosen : (c : AllocationDemand) → (chosen tags m s c).order ≡ rank tags m s c
  unfolding assignment
  order-chosen c = refl

  action-chosen : (c : AllocationDemand) → (chosen tags m s c).action ≡ assign
  unfolding assignment
  action-chosen c = refl

  consider-chosen :
      (e c : AllocationDemand)
      → ((eligible tags m s e ≡ true)
          × (lex_less (rank tags m s e) (rank tags m s c) ≡ true)
          × (consider tags m s e (chosen tags m s c) ≡ chosen tags m s e))
        ⊎ ((eligible tags m s e ≡ true → lex_less (rank tags m s e) (rank tags m s c) ≡ false)
            × (consider tags m s e (chosen tags m s c) ≡ chosen tags m s c))
  consider-chosen e c = elim (Bool-cases (eligible tags m s e)) [
    | inl yes_e ↦
        let known = consider-eligible tags m s e (chosen tags m s c) yes_e in
        ground (arith, known, order-chosen c, action-chosen c)
    | inr no_e ↦
        let known = consider-ineligible tags m s e (chosen tags m s c) no_e in
        ground (arith, known, action-chosen c)
  ]

  Ends-before :
      (e c : AllocationDemand) (ds : List AllocationDemand) (r : AllocationDecision)
      → eligible tags m s e ≡ true
      → lex_less (rank tags m s e) (rank tags m s c) ≡ true
      → Ends e ds r
      → Ends c (e ∷ ds) r
  Ends-before e c ds r el lt (d, inl p, eq, best) = (
    d,
    inr (inl (sym p), rw p el, rw p lt),
    eq,
    ((λ _. rw p (lex_less_irrefl (rank tags m s e))), best),
  )
  Ends-before e c ds r el lt (d, inr (i, el', lt'), eq, best) = (
    d,
    inr (inr i, el', lex_less_trans _ (rank tags m s e) _ lt' lt),
    eq,
    ((λ _. lex_less_asym _ _ lt'), best),
  )

  Ends-after :
      (e c : AllocationDemand) (ds : List AllocationDemand) (r : AllocationDecision)
      → (eligible tags m s e ≡ true → lex_less (rank tags m s e) (rank tags m s c) ≡ false)
      → Ends c ds r
      → Ends c (e ∷ ds) r
  Ends-after e c ds r after (d, inl p, eq, best) = (d, inl p, eq, ((λ el. rw p (after el)), best))
  Ends-after e c ds r after (d, inr (i, el', lt'), eq, best) =
      (d, inr (inr i, el', lt'), eq, ((λ el. lex_less-keep _ _ _ (after el) lt'), best))

  choose-chosen :
      (ds : List AllocationDemand) (c : AllocationDemand)
      → Ends c ds (choose tags m s ds (chosen tags m s c))
  unfolding choose
  choose-chosen [] c = (c, inl refl, refl, tt)
  choose-chosen (e ∷ ds) c = elim (consider-chosen e c) [
    | inl (el, before, same) ↦ rw same (Ends-before e c ds _ el before (choose-chosen ds e))
    | inr (after, same) ↦ rw same (Ends-after e c ds _ after (choose-chosen ds c))
  ]

  -- The reasons with which a decision waits, whatever the demands.
  abbrev wait_reason : List AllocationDemand → String → String
  wait_reason [] reason = reason
  wait_reason (e ∷ ds) reason =
      wait_reason ds (if open_demand tags m s e then "required_tags_unavailable" else reason)

  -- From a decision that waits: it waits still, every demand being ineligible, or it is the
  -- assignment of a best eligible demand.
  abbrev Outcome : List AllocationDemand → AllocationDecision → AllocationDecision → Type 0
  Outcome ds r r' =
      (All (λ e. eligible tags m s e ≡ false) ds
        × (r' ≡ record r { reason_code = wait_reason ds r.reason_code }))
      ⊎ ((d : AllocationDemand) × In d ds
          × (eligible tags m s d ≡ true)
          × (r' ≡ chosen tags m s d)
          × IsBest d ds)

  Ends-Outcome :
      (e : AllocationDemand) (ds : List AllocationDemand) (r r' : AllocationDecision)
      → eligible tags m s e ≡ true
      → Ends e ds r'
      → Outcome (e ∷ ds) r r'
  Ends-Outcome e ds r r' el (d, inl p, eq, best) =
      inr (d, inl (sym p), rw p el, eq, ((λ _. rw p (lex_less_irrefl (rank tags m s e))), best))
  Ends-Outcome e ds r r' el (d, inr (i, el', lt'), eq, best) =
      inr (d, inr i, el', eq, ((λ _. lex_less_asym _ _ lt'), best))

  consider-waiting :
      (e : AllocationDemand) (r : AllocationDecision)
      → r.action ≡ wait
      → ((eligible tags m s e ≡ true) × (consider tags m s e r ≡ chosen tags m s e))
        ⊎ ((eligible tags m s e ≡ false)
            × (consider tags m s e r ≡ record r {
              reason_code =
                  if open_demand tags m s e then "required_tags_unavailable" else r.reason_code;
            }))
  consider-waiting e r w = elim (Bool-cases (eligible tags m s e)) [
    | inl el ↦ inl (el, ground (arith, consider-eligible tags m s e r el))
    | inr ne ↦ inr (ne, ground (arith, consider-ineligible tags m s e r ne))
  ]

  Outcome-after :
      (e : AllocationDemand) (ds : List AllocationDemand) (r r' : AllocationDecision)
      → eligible tags m s e ≡ false
      → Outcome ds
          (record r {
            reason_code =
                if open_demand tags m s e then "required_tags_unavailable" else r.reason_code;
          })
          r'
      → Outcome (e ∷ ds) r r'
  Outcome-after e ds r r' ne (inl (none_eligible, eq)) = inl ((ne, none_eligible), eq)
  Outcome-after e ds r r' ne (inr (d, i, el, eq, best)) =
      inr (d, inr i, el, eq, ((λ yes_e. cc), best))

  choose-waiting :
      (ds : List AllocationDemand) (r : AllocationDecision)
      → r.action ≡ wait
      → Outcome ds r (choose tags m s ds r)
  unfolding choose
  choose-waiting [] r w = inl (tt, refl)
  choose-waiting (e ∷ ds) r w = elim (consider-waiting e r w) [
    | inl (el, same) ↦ rw same (Ends-Outcome e ds r _ el (choose-chosen ds e))
    | inr (ne, same) ↦ rw same (Outcome-after e ds r _ ne (choose-waiting ds _ w))
  ]

-- One member, with its own tags: it is assigned to a best eligible demand, or it waits because no
-- demand is eligible.
abbrev pub Decided : List AllocationDemand → Ledger → AllocationMember → AllocationDecision → Type 0
Decided demands s m r =
    (All (λ e. eligible (member_tags m) m s e ≡ false) demands
      × (r ≡ record (waiting m) {
        reason_code = wait_reason (member_tags m) m s demands (waiting m).reason_code;
      }))
    ⊎ ((d : AllocationDemand) × In d demands
        × (eligible (member_tags m) m s d ≡ true)
        × (r ≡ chosen (member_tags m) m s d)
        × IsBest (member_tags m) m s d demands)

pub decide-Decided :
    (demands : List AllocationDemand) (s : Ledger) (m : AllocationMember)
    → Decided demands s m (decide demands s m)
unfolding decide
decide-Decided demands s m =
    choose-waiting (member_tags m) m s demands (waiting m) (unfold waiting in refl)
