-- ===== src/Allocation/Plan/Order.antt =====
-- The order of the members: a plan has one decision for each, and does not depend on the order in
-- which the snapshot lists them.
use mathlib.Core.Logic.{∥∥₁_elim}
use mathlib.Core.List.{Perm, Permᴰ}
use mathlib.Core.List.Perm
use text.Mathlib.TextEquality.{IsScalar-prop}
use resume_platform.Shared.{
  ◌≡◌, refl, sym, ap, ◌∙◌, true, false, List, [], ◌∷◌, map, inl, inr, In, Bool-cases, arith,
}
use resume_platform.Allocation.Types.{
  AllocationMember, AllocationDemand, AllocationSnapshot, AllocationDecision,
}
use resume_platform.Allocation.Plan.{
  Ledger, member_before, insert_member, sort_members, decide, charge, allocate, assignment, waiting,
  starting, expected_allocation,
}
use resume_platform.Allocation.Plan.Optimal.{decide-Decided}

-- The members can be told apart by their identifiers.
abbrev pub Identified : List AllocationMember → Type 0
Identified ms = (a b : AllocationMember) → In a ms → In b ms → a.member_id ≡ b.member_id → a ≡ b

member_before_asym : (a b : AllocationMember) → member_before a b ≡ true → member_before b a ≡ false
unfolding member_before
member_before_asym a b h = ground arith

member_before_trans :
    (a b c : AllocationMember)
    → member_before a b ≡ false
    → member_before b c ≡ false
    → member_before a c ≡ false
unfolding member_before
member_before_trans a b c h k = ground arith

member_before_total :
    (a b : AllocationMember)
    → member_before a b ≡ false
    → member_before b a ≡ false
    → a.member_id ≡ b.member_id
unfolding member_before
member_before_total a b h k = ground arith

insert_member_comm :
    (a b : AllocationMember) (l : List AllocationMember)
    → (a.member_id ≡ b.member_id → a ≡ b)
    → insert_member a (insert_member b l) ≡ insert_member b (insert_member a l)
unfolding insert_member
insert_member_comm a b [] same =
    ground (arith, member_before_asym a b, member_before_total a b, member_before_total b a)
insert_member_comm a b (x ∷ l) same = ground (
  arith,
  member_before_asym a b,
  member_before_asym b a,
  member_before_total a b,
  member_before_trans x a b,
  member_before_trans x b a,
  member_before_trans a b x,
  member_before_trans b a x,
  insert_member_comm a b l same,
)

In-Permᴰ :
    {xs ys : List AllocationMember} → Permᴰ xs ys → (x : AllocationMember) → In x ys → In x xs
In-Permᴰ Permᴰ.nil x m = m
In-Permᴰ (Permᴰ.cons e p) x (inl q) = inl (e ∙ q)
In-Permᴰ (Permᴰ.cons e p) x (inr m) = inr (In-Permᴰ p x m)
In-Permᴰ (Permᴰ.swap e f) x (inl q) = inr (inl (f ∙ q))
In-Permᴰ (Permᴰ.swap e f) x (inr (inl q)) = inl (e ∙ q)
In-Permᴰ (Permᴰ.swap e f) x (inr (inr m)) = inr (inr m)
In-Permᴰ (Permᴰ.trans p q) x m = In-Permᴰ p x (In-Permᴰ q x m)

sort_members-Permᴰ :
    {xs ys : List AllocationMember}
    → Permᴰ xs ys
    → Identified xs
    → sort_members xs ≡ sort_members ys
unfolding sort_members
sort_members-Permᴰ Permᴰ.nil h = refl
sort_members-Permᴰ (Permᴰ.cons {a} {b} {l₁ = l} {l₂ = k} e p) h =
    cc (e, sort_members-Permᴰ p (λ x y i j. h x y (inr i) (inr j)))
sort_members-Permᴰ (Permᴰ.swap {a} {b} {a'} {b'} {l} e f) h =
    cc (e, f, insert_member_comm a b (sort_members l) (h a b (inl refl) (inr (inl refl))))
sort_members-Permᴰ (Permᴰ.trans p q) h =
    sort_members-Permᴰ p h
    ∙ sort_members-Permᴰ q (λ x y i j. h x y (In-Permᴰ p x i) (In-Permᴰ p y j))

insert_member-perm :
    (m : AllocationMember) (l : List AllocationMember) → Perm (insert_member m l) (m ∷ l)
unfolding insert_member
insert_member-perm m [] = Perm.refl (m ∷ [])
insert_member-perm m (x ∷ l) = elim (Bool-cases (member_before x m)) [
  | inl e ↦ rw e (Perm.trans (Perm.cons x (insert_member-perm m l)) (Perm.swap m x l))
  | inr e ↦ rw e (Perm.refl (m ∷ x ∷ l))
]

sort_members-perm : (ms : List AllocationMember) → Perm (sort_members ms) ms
unfolding sort_members
sort_members-perm [] = Perm.refl []
sort_members-perm (m ∷ ms) =
    Perm.trans (insert_member-perm m (sort_members ms)) (Perm.cons m (sort_members-perm ms))

member_id-decide :
    (demands : List AllocationDemand) (s : Ledger) (m : AllocationMember)
    → (decide demands s m).member_id ≡ m.member_id
unfolding assignment waiting
member_id-decide demands s m = elim (decide-Decided demands s m) [
  | inl (_, e) ↦ rw e refl
  | inr (d, _, _, e, _) ↦ rw e refl
]

member_ids-allocate :
    (demands : List AllocationDemand) (s : Ledger) (ms : List AllocationMember)
    → map (λ r. r.member_id) (allocate demands s ms) ≡ map (λ m. m.member_id) ms
unfolding allocate
member_ids-allocate demands s [] = refl
member_ids-allocate demands s (m ∷ ms) =
    cc (
      member_id-decide demands s m,
      member_ids-allocate demands (charge m (decide demands s m) s) ms,
    )

-- A plan has exactly one decision for each member of the snapshot: the identifiers of the
-- decisions are a permutation of those of the members.
member_ids-expected_allocation :
    (snapshot : AllocationSnapshot)
    → Perm
        (map (λ r. r.member_id) (expected_allocation snapshot))
        (map (λ m. m.member_id) snapshot.members)
unfolding expected_allocation
member_ids-expected_allocation snapshot =
    rw member_ids-allocate (Perm.map (λ m. m.member_id) (sort_members-perm snapshot.members))

decisions_set : IsSet (List AllocationDecision)
decisions_set = hlevel IsScalar-prop

-- Where identifiers tell the members apart, listing the members in another order gives the same
-- plan.
pub expected_allocation-perm :
    (snapshot : AllocationSnapshot) (members : List AllocationMember)
    → Identified snapshot.members
    → Perm snapshot.members members
    → expected_allocation (record snapshot { members = members }) ≡ expected_allocation snapshot
unfolding expected_allocation starting
expected_allocation-perm snapshot members h p =
    ∥∥₁_elim p (decisions_set _ _)
      (λ q. ap (allocate snapshot.demands (starting snapshot)) (sym (sort_members-Permᴰ q h)))
