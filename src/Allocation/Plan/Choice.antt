-- ===== src/Allocation/Plan/Choice.antt =====
-- What one pass over the demands does, against a direct description: a demand is eligible or not,
-- and has a rank.
use resume_platform.Shared.{
  ℕ, ◌+◌, String, ◌≡◌, refl, Bool, true, false, not, ◌&&◌, ◌||◌, none, some, List, [], ◌∷◌, ℤ,
  lex_less, any, all, arith, if◌then◌else◌,
}
use resume_platform.Allocation.Types.{AllocationMember, AllocationDemand, AllocationDecision}
use resume_platform.Allocation.Plan.{
  Ledger, has_tag, add_key, match_required, match_preferred, is_wait, is_empty, open_demand,
  order_of, assignment, consider,
}

-- The keys that a run over `codes` adds.
pub collect : (String → String) → List String → List String → List String
collect tags [] matched = matched
collect tags (c ∷ cs) matched =
    collect tags cs (if has_tag tags c then add_key c matched else matched)

-- How many of the codes the member has, with repetitions.
pub hits : (String → String) → List String → ℕ
hits tags [] = 0
hits tags (c ∷ cs) = if has_tag tags c then hits tags cs + 1 else hits tags cs

module _ (tags : String → String) where
  match_required_lem :
      (cs matched : List String)
      → match_required tags cs matched
        ≡ (if all (has_tag tags) cs then some (collect tags cs matched) else none)
  unfolding match_required collect
  match_required_lem [] matched = refl
  match_required_lem (c ∷ cs) matched = ground (arith, match_required_lem cs (add_key c matched))

  match_preferred_lem :
      (cs matched : List String) (n : ℕ)
      → match_preferred tags cs matched n ≡ (collect tags cs matched, n + hits tags cs)
  unfolding match_preferred collect hits
  match_preferred_lem [] matched n = ground arith
  match_preferred_lem (c ∷ cs) matched n =
      ground (
        arith,
        match_preferred_lem cs (add_key c matched) (n + 1),
        match_preferred_lem cs matched n,
      )

  add_key-is_empty : (c : String) (matched : List String) → is_empty (add_key c matched) ≡ false
  unfolding add_key
  add_key-is_empty c [] = refl
  add_key-is_empty c (x ∷ xs) = ground arith

  collect-is_empty :
      (cs matched : List String)
      → is_empty (collect tags cs matched) ≡ (is_empty matched && not (any (has_tag tags) cs))
  unfolding collect
  collect-is_empty [] matched = ground arith
  collect-is_empty (c ∷ cs) matched = ground (
    arith,
    collect-is_empty cs (add_key c matched),
    collect-is_empty cs matched,
    add_key-is_empty c matched,
  )

module _ (tags : String → String) (m : AllocationMember) (s : Ledger) where
  -- The demand is allowed and receiving, every required tag is there, and at least one tag counts.
  abbrev pub eligible : AllocationDemand → Bool
  eligible d =
      open_demand tags m s d
      && (all (has_tag tags) d.required_tags
          && (any (has_tag tags) d.required_tags || any (has_tag tags) d.preferred_tags))

  abbrev pub rank : AllocationDemand → List ℤ
  rank d = order_of tags m s d (hits tags d.preferred_tags)

  abbrev pub chosen : AllocationDemand → AllocationDecision
  chosen d =
      assignment tags m s d (collect tags d.preferred_tags (collect tags d.required_tags []))
        (hits tags d.preferred_tags)

  pub consider-eligible :
      (d : AllocationDemand) (r : AllocationDecision)
      → eligible d ≡ true
      → consider tags m s d r
        ≡ (if is_wait r.action || lex_less (rank d) r.order then chosen d else r)
  unfolding consider
  consider-eligible d r h = ground (
    arith,
    match_required_lem tags d.required_tags [],
    match_preferred_lem tags d.preferred_tags (collect tags d.required_tags []) 0,
    collect-is_empty tags d.required_tags [],
    collect-is_empty tags d.preferred_tags (collect tags d.required_tags []),
  )

  -- An ineligible demand changes at most the reason of a decision that waits.
  pub consider-ineligible :
      (d : AllocationDemand) (r : AllocationDecision)
      → eligible d ≡ false
      → consider tags m s d r ≡ (
          if is_wait r.action && open_demand tags m s d
          then record r { reason_code = "required_tags_unavailable" }
          else r)
  unfolding consider
  consider-ineligible d r h = ground (
    arith,
    match_required_lem tags d.required_tags [],
    match_preferred_lem tags d.preferred_tags (collect tags d.required_tags []) 0,
    collect-is_empty tags d.required_tags [],
    collect-is_empty tags d.preferred_tags (collect tags d.required_tags []),
  )
