-- ===== src/Policy/Continuation.antt =====
-- The snapshot of `continueAfterAIRejection` in internal/platform/applications.go: the volunteer that
-- was assessed is marked as rejected, and the snapshot is prepared again.
use Prim.Native.Char.{Char}
use resume_platform.Shared.{
  ℕ, ◌+◌, String, ◌≡◌, ◌≢◌, sym, ap, ◌∙◌, subst, true, inl, inr, some, Option-cases, List, [], ◌∷◌,
  map, In, arith, str_eq, eq_iff, sort-In, if◌then◌else◌, Bool-cases,
}
use resume_platform.Policy.Standards.{Volunteer}
use resume_platform.Policy.Snapshot.{
  Snapshot, Decision, prepare_snapshot, takes, find_current, volunteer_less, preferred_entity,
}
use resume_platform.Policy.Snapshot.Volunteers.{
  sorted, prepare_snapshot-found, current-decide_current,
}

-- The loop over the volunteers.
abbrev reject_volunteer : String → Volunteer → Volunteer
reject_volunteer prior v = if str_eq v.ref prior then record v { rejected = true } else v

-- The snapshot that is prepared again.
abbrev pub continued_snapshot : String → Snapshot → Snapshot
continued_snapshot prior s = record s {
  volunteers = map (reject_volunteer prior) s.volunteers;
  retry_volunteer_ref = "";
}

find_current-In :
    (retry : String) (rank r : ℕ) (vs : List Volunteer) (v : Volunteer)
    → find_current retry rank vs ≡ some (r, v)
    → In v vs × (takes retry v ≡ true)
unfolding find_current
find_current-In retry rank r [] v h = absurd (ground arith)
find_current-In retry rank r (x ∷ vs) v h = elim (Bool-cases (takes retry x)) [
  | inl e ↦ let p : x ≡ v = ground arith in (inl p, subst (λ y. takes retry y ≡ true) p e)
  | inr e ↦ let (m, t) = find_current-In retry (rank + 1) r vs v (ground arith) in (inr m, t)
]

rejected-prior :
    (prior : String) (vs : List Volunteer) (v : Volunteer)
    → In v (map (reject_volunteer prior) vs)
    → v.ref ≡ prior
    → v.rejected ≡ true
rejected-prior prior [] v m e = absurd m
rejected-prior prior (x ∷ vs) v (inr m) e = rejected-prior prior vs v m e
rejected-prior prior (x ∷ vs) v (inl p) e =
    let q : (reject_volunteer prior x).ref ≡ prior = ap Volunteer.ref p ∙ e in
    subst (λ y. y.rejected ≡ true) p (ground (arith, eq_iff x.ref prior))

-- After a rejection the next assessment is of another volunteer: the rejected reference is not the
-- current one again.
pub prepare_snapshot-continued_snapshot :
    (to_lower : Char → Char) (prior : String) (s : Snapshot)
    → prior ≢ ""
    → (prepare_snapshot to_lower (continued_snapshot prior s)).current_volunteer_ref ≢ prior
unfolding prepare_snapshot takes
prepare_snapshot-continued_snapshot to_lower prior s given h =
    let t = continued_snapshot prior s in
    elim (Option-cases (find_current "" 1 (sorted to_lower t))) [
      | inl e ↦ given (sym (ground arith))
      | inr ((r, u), e) ↦
          let (m, takes_u) = find_current-In "" 1 r (sorted to_lower t) u e in
          let same : u.ref ≡ prior =
            sym (current-decide_current to_lower t (map Volunteer.ref (sorted to_lower t)) r u)
            ∙ (ap Decision.current_volunteer_ref (prepare_snapshot-found to_lower t r u e) ∙ h) in
          let gone =
            rejected-prior prior s.volunteers u
              (sort-In (volunteer_less (preferred_entity t.candidate)) u t.volunteers m) same in
          ground arith
    ]
