-- ===== src/Allocation/Plan/Soundness.antt =====
-- What a plan promises: assignments are justified by evidence, and their sequence numbers follow
-- one another.
use resume_platform.Shared.{
  ℕ, ◌+◌, String, ◌≡◌, ◌≢◌, refl, sym, ap, subst, ◌∙◌, true, not, ◌&&◌, ◌||◌, List, [], ◌∷◌, ◌⊎◌,
  inl, inr, any, all, All, In, Bool-cases, &&-eq-true, arith, ◌==◌, ==_iff, if◌then◌else◌, str_eq,
  eq_iff,
}
use resume_platform.Allocation.Types.{
  AllocationTag, AllocationMember, AllocationDemand, AllocationSnapshot, AllocationDecision, wait,
  assign,
}
use resume_platform.Allocation.Plan.{
  Ledger, member_before, usable, tag_map, member_tags, has_tag, decide, charge, allocate,
  assignment, waiting, starting, sort_members, insert_member, expected_allocation, open_demand,
}
use resume_platform.Allocation.Plan.Optimal.{Decided, decide-Decided}

-- A usable tag of the member with this code, and the assertion that supports it.
pub record HasEvidence (m : AllocationMember) (code : String) : Type 0 where
  pub tag : AllocationTag
  pub held : In tag m.tags
  pub of_code : tag.code ≡ code
  pub counts : usable tag ≡ true
  pub asserted : tag.assertion_ref ≢ ""

tag_map-source :
    (ts : List AllocationTag) (f : String → String) (code : String)
    → (tag_map ts f code ≡ f code)
      ⊎ ((t : AllocationTag) × In t ts
          × (t.code ≡ code)
          × (usable t ≡ true)
          × (tag_map ts f code ≡ t.assertion_ref))
unfolding tag_map
tag_map-source [] f code = inl refl
tag_map-source (t ∷ ts) f code =
    elim (tag_map-source ts (λ c. if usable t && str_eq t.code c then t.assertion_ref else f c)
      code) [
        | inl e ↦ elim (Bool-cases (usable t && str_eq t.code code)) [
          | inl h ↦
              let (u, c) = &&-eq-true (usable t) (str_eq t.code code) h in
              inr (t, inl refl, (eq_iff t.code code).0 c, u, rw e (rw h refl))
          | inr h ↦ inl (rw e (rw h refl))
        ]
        | inr (u, i, c, h, e) ↦ inr (u, inr i, c, h, e)
      ]

not_empty : (s : String) → not (str_eq s "") ≡ true → s ≢ ""
not_empty s h e = ground (arith, eq_iff s "")

has_tag-HasEvidence :
    (m : AllocationMember) (code : String)
    → has_tag (member_tags m) code ≡ true
    → HasEvidence m code
has_tag-HasEvidence m code h = elim (tag_map-source m.tags (λ _. "") code) [
  | inl e ↦ absurd (not_empty _ h e)
  | inr (t, i, c, u, e) ↦ record {
    tag = t;
    held = i;
    of_code = c;
    counts = u;
    asserted = λ z. not_empty (member_tags m code) h (e ∙ z);
  }
]

all-HasEvidence :
    (m : AllocationMember) (codes : List String)
    → all (has_tag (member_tags m)) codes ≡ true
    → All (HasEvidence m) codes
all-HasEvidence m [] h = tt
all-HasEvidence m (c ∷ cs) h =
    let (first, rest) =
      &&-eq-true (has_tag (member_tags m) c) (all (has_tag (member_tags m)) cs) h in
    (has_tag-HasEvidence m c first, all-HasEvidence m cs rest)

any-In : (n : ℕ) (ids : List ℕ) → any (λ id. id == n) ids ≡ true → In n ids
any-In n [] h = cc
any-In n (i ∷ ids) h = elim (Bool-cases (i == n)) [
  | inl e ↦ inl ((==_iff i n).0 e)
  | inr e ↦ inr (any-In n ids (rw e at h))
]

-- Why a decision may assign: a member and a demand of the snapshot, the demand is allowed to the
-- member and receives, and every tag that it requires is evidenced.
pub record Justified (members : List AllocationMember) (demands : List AllocationDemand)
    (r : AllocationDecision) : Type 0 where
  pub member : AllocationMember
  pub demand : AllocationDemand
  pub of_members : In member members
  pub of_demands : In demand demands
  pub member_id : r.member_id ≡ member.member_id
  pub demand_id : r.demand_id ≡ demand.demand_id
  pub department : r.department_ref ≡ demand.department_ref
  pub allowed : In demand.demand_id member.allowed_demand_ids
  pub receiving : demand.reception_state ≡ "receiving"
  pub evidence : All (HasEvidence member) demand.required_tags

decide-Justified :
    (members : List AllocationMember) (demands : List AllocationDemand) (s : Ledger)
    (m : AllocationMember)
    → In m members
    → (decide demands s m).action ≡ assign
    → Justified members demands (decide demands s m)
unfolding assignment waiting
decide-Justified members demands s m i a = elim (decide-Decided demands s m) [
  | inl (_, e) ↦
      absurd (let w : wait ≡ assign = sym (ap (λ (r : AllocationDecision). r.action) e) ∙ a in cc)
  | inr (d, j, el, e, _) ↦
      let open_and =
        &&-eq-true (open_demand (member_tags m) m s d)
          (all (has_tag (member_tags m)) d.required_tags
            && (any (has_tag (member_tags m)) d.required_tags
                || any (has_tag (member_tags m)) d.preferred_tags))
          el in
      let allowed_and =
        &&-eq-true (any (λ id. id == d.demand_id) m.allowed_demand_ids)
          (str_eq d.reception_state "receiving") open_and.0 in
      let required_and =
        &&-eq-true (all (has_tag (member_tags m)) d.required_tags)
          (any (has_tag (member_tags m)) d.required_tags
            || any (has_tag (member_tags m)) d.preferred_tags)
          open_and.1 in
      record {
        member = m;
        demand = d;
        of_members = i;
        of_demands = j;
        member_id = rw e refl;
        demand_id = rw e refl;
        department = rw e refl;
        allowed = any-In d.demand_id m.allowed_demand_ids allowed_and.0;
        receiving = (eq_iff d.reception_state "receiving").0 allowed_and.1;
        evidence = all-HasEvidence m d.required_tags required_and.0;
      }
]

allocate-Justified :
    (members : List AllocationMember) (demands : List AllocationDemand) (s : Ledger)
    (ms : List AllocationMember)
    → ((m : AllocationMember) → In m ms → In m members)
    → All (λ r. r.action ≡ assign → Justified members demands r) (allocate demands s ms)
unfolding allocate
allocate-Justified members demands s [] sub = tt
allocate-Justified members demands s (m ∷ ms) sub = (
  decide-Justified members demands s m (sub m (inl refl)),
  allocate-Justified members demands (charge m (decide demands s m) s) ms (λ x i. sub x (inr i)),
)

In-later :
    (x m y : AllocationMember) (l k : List AllocationMember)
    → (In x k → In x (m ∷ l))
    → In x (y ∷ k)
    → In x (m ∷ y ∷ l)
In-later x m y l k f (inl e) = inr (inl e)
In-later x m y l k f (inr i) = elim (f i) [ inl e ↦ inl e | inr j ↦ inr (inr j) ]

In-insert_member :
    (x m : AllocationMember) (l : List AllocationMember) → In x (insert_member m l) → In x (m ∷ l)
unfolding insert_member
In-insert_member x m [] i = i
In-insert_member x m (y ∷ l) i = elim (Bool-cases (member_before y m)) [
  | inl e ↦ In-later x m y l (insert_member m l) (In-insert_member x m l) (rw e at i)
  | inr e ↦ rw e at i
]

In-sort_members :
    (x : AllocationMember) (ms : List AllocationMember) → In x (sort_members ms) → In x ms
unfolding sort_members
In-sort_members x [] i = i
In-sort_members x (m ∷ ms) i = elim (In-insert_member x m (sort_members ms) i) [
  | inl e ↦ inl e
  | inr j ↦ inr (In-sort_members x ms j)
]

-- Every assignment of a plan is justified: it sends a member of the snapshot to a demand of the
-- snapshot that is allowed to that member, that is receiving, and whose required tags the member
-- all has as usable tags with an assertion.
pub expected_allocation-Justified :
    (snapshot : AllocationSnapshot)
    → All
        (λ r. r.action ≡ assign → Justified snapshot.members snapshot.demands r)
        (expected_allocation snapshot)
unfolding expected_allocation
expected_allocation-Justified snapshot =
    allocate-Justified snapshot.members snapshot.demands (starting snapshot)
      (sort_members snapshot.members) (λ m i. In-sort_members m snapshot.members i)

-- The assignments among the decisions carry n, n + 1, … in turn.
abbrev pub Numbered : ℕ → List AllocationDecision → Type 0
Numbered n [] = Unit
Numbered n (r ∷ rs) =
    ((r.action ≡ wait) × Numbered n rs)
    ⊎ ((r.action ≡ assign) × (r.sequence ≡ n) × Numbered (n + 1) rs)

decide-sequence :
    (demands : List AllocationDemand) (s : Ledger) (m : AllocationMember)
    → (((decide demands s m).action ≡ wait)
        × ((charge m (decide demands s m) s).sequence ≡ s.sequence))
      ⊎ (((decide demands s m).action ≡ assign)
          × ((decide demands s m).sequence ≡ s.sequence)
          × ((charge m (decide demands s m) s).sequence ≡ s.sequence + 1))
unfolding assignment waiting charge
decide-sequence demands s m = elim (decide-Decided demands s m) [
  | inl (_, e) ↦ inl (rw e refl, rw e refl)
  | inr (d, _, _, e, _) ↦ inr (rw e refl, rw e refl, rw e refl)
]

allocate-Numbered :
    (demands : List AllocationDemand) (s : Ledger) (ms : List AllocationMember)
    → Numbered s.sequence (allocate demands s ms)
unfolding allocate
allocate-Numbered demands s [] = tt
allocate-Numbered demands s (m ∷ ms) = elim (decide-sequence demands s m) [
  | inl (w, e) ↦ inl (
    w,
    subst (λ n. Numbered n (allocate demands (charge m (decide demands s m) s) ms)) e
        (allocate-Numbered demands (charge m (decide demands s m) s) ms),
  )
  | inr (a, n, e) ↦ inr (
    a,
    n,
    subst (λ n. Numbered n (allocate demands (charge m (decide demands s m) s) ms)) e
        (allocate-Numbered demands (charge m (decide demands s m) s) ms),
  )
]

-- The assignments of a plan are numbered without gaps from the snapshot's next sequence number, in
-- the order of the decisions, and a decision that waits uses no number.
pub expected_allocation-Numbered :
    (snapshot : AllocationSnapshot) → Numbered snapshot.next_sequence (expected_allocation snapshot)
unfolding expected_allocation starting
expected_allocation-Numbered snapshot =
    allocate-Numbered snapshot.demands (starting snapshot) (sort_members snapshot.members)

-- One decision to a member, each made with the counters that the earlier ones leave.
abbrev pub Planned :
    List AllocationDemand → Ledger → List AllocationMember → List AllocationDecision → Type 0
Planned demands s [] [] = Unit
Planned demands s (m ∷ ms) (r ∷ rs) = Decided demands s m r × Planned demands (charge m r s) ms rs
Planned demands s _ _ = ⊥

allocate-Planned :
    (demands : List AllocationDemand) (s : Ledger) (ms : List AllocationMember)
    → Planned demands s ms (allocate demands s ms)
unfolding allocate
allocate-Planned demands s [] = tt
allocate-Planned demands s (m ∷ ms) =
    (decide-Decided demands s m, allocate-Planned demands (charge m (decide demands s m) s) ms)

-- Going through the members by creation and identifier, with the supply and the sequence numbers
-- that the earlier decisions leave: a member is assigned to an eligible demand of the snapshot such
-- that no eligible demand comes before it by preferred tags, priority, supply, last sequence and
-- identifier; or it waits, and then no demand is eligible for it.
pub expected_allocation-Planned :
    (snapshot : AllocationSnapshot)
    → Planned snapshot.demands
        (starting snapshot)
        (sort_members snapshot.members)
        (expected_allocation snapshot)
unfolding expected_allocation
expected_allocation-Planned snapshot =
    allocate-Planned snapshot.demands (starting snapshot) (sort_members snapshot.members)
