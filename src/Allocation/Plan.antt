-- ===== src/Allocation/Plan.antt =====
-- `expectedAllocation` of internal/platform/allocation_policy.go, loop by loop. A Go map is the
-- function that it denotes, with the zero value at a missing key; the set of matched tags is the
-- list of its keys. The counters do not reach 2^63: a plan has at most 100 members.
pub mod Choice
pub mod Optimal
pub mod Order
pub mod Soundness
pub mod Result
use Prim.Native.String.{compare}
use Prim.Native.Nat.{Ordering}
use resume_platform.Shared.{
  ℕ, ◌+◌, String, Bool, true, false, not, ◌&&◌, ◌||◌, Option, none, some, List, [], ◌∷◌, map, ℤ,
  pos, neg, lex_less, any, leb, ltb, ◌==◌, str_eq, if◌then◌else◌,
}
use resume_platform.Allocation.Types.{
  AllocationTag, AllocationMember, AllocationDemand, AllocationSnapshot, AllocationDecision, Action,
  wait, assign,
}

-- `sort.Slice(members, …)`: by creation, then by identifier. The identifiers are distinct, so the
-- comparison leaves no choice of order to the sorting algorithm.
pub member_before : AllocationMember → AllocationMember → Bool
member_before a b =
    if a.created_at == b.created_at
    then ltb a.member_id b.member_id
    else ltb a.created_at b.created_at

pub insert_member : AllocationMember → List AllocationMember → List AllocationMember
insert_member m [] = m ∷ []
insert_member m (x ∷ xs) = if member_before x m then x ∷ insert_member m xs else m ∷ x ∷ xs

pub sort_members : List AllocationMember → List AllocationMember
sort_members [] = []
sort_members (m ∷ ms) = insert_member m (sort_members ms)

-- A tag that counts: verified, supported, and set by hand or certain enough.
pub usable : AllocationTag → Bool
usable t =
    t.verified
    && str_eq t.status "supported"
    && (str_eq t.source "manual" || leb 8000 t.confidence_bps)

-- The map from a member's usable tag codes to their assertions; the last one of a code stays.
pub tag_map : List AllocationTag → (String → String) → String → String
tag_map [] f = f
tag_map (t ∷ ts) f =
    tag_map ts (λ code. if usable t && str_eq t.code code then t.assertion_ref else f code)

-- The map `tags` of a member.
abbrev pub member_tags : AllocationMember → String → String
member_tags m = tag_map m.tags (λ _. "")

-- `tags[code] != ""`
abbrev pub has_tag : (String → String) → String → Bool
has_tag tags code = not (str_eq (tags code) "")

-- `matched[code] = true`
pub add_key : String → List String → List String
add_key k ks = if any (str_eq k) ks then ks else k ∷ ks

-- The loop over `d.RequiredTags`; `none` is the break with `all = false`.
pub match_required : (String → String) → List String → List String → Option (List String)
match_required tags [] matched = some matched
match_required tags (c ∷ cs) matched =
    if has_tag tags c then match_required tags cs (add_key c matched) else none

-- The loop over `d.PreferredTags`: the keys matched, and `preferred`.
pub match_preferred : (String → String) → List String → List String → ℕ → List String × ℕ
match_preferred tags [] matched n = (matched, n)
match_preferred tags (c ∷ cs) matched n =
    let hit = has_tag tags c in
    match_preferred tags cs (if hit then add_key c matched else matched) (if hit then n + 1 else n)

-- `sort.Strings`
abbrev string_le : String → String → Bool
string_le a b = elim (compare a b) [ Ordering.gt ↦ false | _ ↦ true ]

pub insert_string : String → List String → List String
insert_string s [] = s ∷ []
insert_string s (x ∷ xs) = if string_le s x then s ∷ x ∷ xs else x ∷ insert_string s xs

pub sort_strings : List String → List String
sort_strings [] = []
sort_strings (s ∷ xs) = insert_string s (sort_strings xs)

-- `m[k] = v`
abbrev update : (ℕ → ℕ) → ℕ → ℕ → ℕ → ℕ
update f k v j = if k == j then v else f j

-- `supply[d.DemandID] = d.RecentSupplyCount`, and `last` likewise: a later demand overwrites.
pub recent_supply : List AllocationDemand → (ℕ → ℕ) → ℕ → ℕ
recent_supply [] f = f
recent_supply (d ∷ ds) f = recent_supply ds (update f d.demand_id d.recent_supply_count)

pub last_sequence : List AllocationDemand → (ℕ → ℕ) → ℕ → ℕ
last_sequence [] f = f
last_sequence (d ∷ ds) f = last_sequence ds (update f d.demand_id d.last_allocation_sequence)

-- The variables that the loop over the members carries.
pub record Ledger : Type 0 where
  pub supply : ℕ → ℕ
  pub last : ℕ → ℕ
  pub sequence : ℕ

abbrev pub is_wait : Action → Bool
is_wait wait = true
is_wait assign = false

abbrev pub is_empty : List String → Bool
is_empty [] = true
is_empty (_ ∷ _) = false

module _ (tags : String → String) (m : AllocationMember) (s : Ledger) where
  abbrev pub open_demand : AllocationDemand → Bool
  open_demand d =
      any (λ id. id == d.demand_id) m.allowed_demand_ids && str_eq d.reception_state "receiving"

  -- The tuple `order`.
  pub order_of : AllocationDemand → ℕ → List ℤ
  order_of d preferred =
      neg preferred
      ∷ pos d.priority
      ∷ pos (s.supply d.demand_id)
      ∷ pos (s.last d.demand_id)
      ∷ pos d.demand_id
      ∷ []

  pub assignment : AllocationDemand → List String → ℕ → AllocationDecision
  assignment d matched preferred =
      let keys = sort_strings matched in
      record {
        member_id = m.member_id;
        qualification_ref = m.qualification_ref;
        action = assign;
        demand_id = d.demand_id;
        department_ref = d.department_ref;
        matched_tags = keys;
        assertion_refs = map tags keys;
        order = order_of d preferred;
        sequence = s.sequence;
        reason_code = "allocated";
      }

  -- The end of the loop's body, once the required tags are matched.
  pub compete : AllocationDemand → List String × ℕ → AllocationDecision → AllocationDecision
  compete d (matched, preferred) result =
      if is_empty matched
      then result
      else if is_wait result.action || lex_less (order_of d preferred) result.order
      then assignment d matched preferred
      else result

  -- The body of the loop over `snapshot.Demands`.
  pub consider : AllocationDemand → AllocationDecision → AllocationDecision
  unfolding compete
  consider d result =
      if open_demand d
      then (let noted =
            if is_wait result.action
            then record result { reason_code = "required_tags_unavailable" }
            else result in
          elim (match_required tags d.required_tags []) [
            | none ↦ noted
            | some matched ↦ compete d (match_preferred tags d.preferred_tags matched 0) noted
          ])
      else result

  pub choose : List AllocationDemand → AllocationDecision → AllocationDecision
  choose [] result = result
  choose (d ∷ ds) result = choose ds (consider d result)

-- The decision that a member starts with.
pub waiting : AllocationMember → AllocationDecision
waiting m = record {
  member_id = m.member_id;
  qualification_ref = m.qualification_ref;
  action = wait;
  demand_id = 0;
  department_ref = "";
  matched_tags = [];
  assertion_refs = [];
  order = [];
  sequence = 0;
  reason_code = elim m.allowed_demand_ids [
    | [] ↦ "no_active_mapping"
    | _ ∷ _ ↦ "no_receiving_demand"
  ];
}

-- The body of the loop over the members, up to the update of the counters.
pub decide : List AllocationDemand → Ledger → AllocationMember → AllocationDecision
decide demands s m = choose (member_tags m) m s demands (waiting m)

-- What an assignment adds to the counters.
pub charge : AllocationMember → AllocationDecision → Ledger → Ledger
charge m result s = if is_wait result.action then s else record {
  supply =
      if any (λ id. id == result.demand_id) m.counted_demand_ids
      then s.supply
      else update s.supply result.demand_id (s.supply result.demand_id + 1);
  last = update s.last result.demand_id s.sequence;
  sequence = s.sequence + 1;
}

pub allocate : List AllocationDemand → Ledger → List AllocationMember → List AllocationDecision
allocate demands s [] = []
allocate demands s (m ∷ ms) =
    let result = decide demands s m in result ∷ allocate demands (charge m result s) ms

pub starting : AllocationSnapshot → Ledger
starting snapshot = record {
  supply = recent_supply snapshot.demands (λ _. 0);
  last = last_sequence snapshot.demands (λ _. 0);
  sequence = snapshot.next_sequence;
}

pub expected_allocation : AllocationSnapshot → List AllocationDecision
expected_allocation snapshot =
    allocate snapshot.demands (starting snapshot) (sort_members snapshot.members)
