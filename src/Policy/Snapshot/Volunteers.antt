-- ===== src/Policy/Snapshot/Volunteers.antt =====
-- The order of the volunteers and the current one.
use Prim.Native.Char.{Char}
use resume_platform.Shared.{
  ℕ, ◌+◌, String, ◌≡◌, map, true, false, inl, inr, some, List, [], ◌∷◌, In, Bool-cases, arith,
  text_lt_asym, text_lt_cotrans, sort_stable, In-sort, sort-In, sort-Sorted, Sorted, first,
  first-least,
}
use resume_platform.Policy.Standards.{Volunteer}
use resume_platform.Policy.Snapshot.{
  date_key, volunteer_less, takes, find_current, Snapshot, decide_current, prepare_snapshot,
  preferred_entity,
}

volunteer_less_asym :
    (k : String) (a b : Volunteer) → volunteer_less k a b ≡ true → volunteer_less k b a ≡ false
unfolding volunteer_less
volunteer_less_asym k a b h =
    ground (arith, text_lt_asym (date_key a.apply_date) (date_key b.apply_date))

volunteer_less_cotrans :
    (k : String) (a b c : Volunteer)
    → volunteer_less k a b ≡ false
    → volunteer_less k b c ≡ false
    → volunteer_less k a c ≡ false
unfolding volunteer_less
volunteer_less_cotrans k a b c h l =
    ground (
      arith,
      text_lt_cotrans (date_key a.apply_date) (date_key b.apply_date) (date_key c.apply_date),
    )

volunteer_less_irrefl : (k : String) (a : Volunteer) → volunteer_less k a a ≡ false
volunteer_less_irrefl k a = ground (arith, volunteer_less_asym k a a)

find_current-first :
    (retry : String) (rank : ℕ) (vs : List Volunteer) (v : Volunteer)
    → first (takes retry) vs ≡ some v
    → (r : ℕ) × (find_current retry rank vs ≡ some (r, v))
unfolding find_current
find_current-first retry rank [] v h = absurd (ground arith)
find_current-first retry rank (x ∷ vs) v h = elim (Bool-cases (takes retry x)) [
  | inl e ↦ (rank, ground arith)
  | inr e ↦
      let (r, p) = find_current-first retry (rank + 1) vs v (ground arith) in (r, ground arith)
]

pub current-decide_current :
    (to_lower : Char → Char) (s : Snapshot) (order : List String) (rank : ℕ) (v : Volunteer)
    → (decide_current to_lower s order rank v).current_volunteer_ref ≡ v.ref
unfolding decide_current
current-decide_current to_lower s order rank v = ground arith

module _ (to_lower : Char → Char) (s : Snapshot) where
  abbrev pub preferred : String
  preferred = preferred_entity s.candidate

  abbrev pub sorted : List Volunteer
  sorted = sort_stable (volunteer_less preferred) s.volunteers

  -- The decision once the current volunteer is found.
  pub prepare_snapshot-found :
      (rank : ℕ) (v : Volunteer)
      → find_current s.retry_volunteer_ref 1 sorted ≡ some (rank, v)
      → decide_current to_lower s (map Volunteer.ref sorted) rank v ≡ prepare_snapshot to_lower s
  unfolding prepare_snapshot
  prepare_snapshot-found rank v h = ground (arith, map Volunteer.ref sorted)

  -- The current volunteer is one of the least effective ones.
  pub find_current-least :
      (v : Volunteer)
      → In v s.volunteers
      → takes s.retry_volunteer_ref v ≡ true
      → (u : Volunteer) × (r : ℕ) × In u s.volunteers
        × (takes s.retry_volunteer_ref u ≡ true)
        × (find_current s.retry_volunteer_ref 1 sorted ≡ some (r, u))
        × (volunteer_less preferred v u ≡ false)
  find_current-least v m h =
      let less = volunteer_less preferred in
      let order : Sorted less sorted =
        sort-Sorted less (volunteer_less_asym preferred) (volunteer_less_cotrans preferred)
          s.volunteers in
      let (u, i, t, f, l) =
        first-least (takes s.retry_volunteer_ref) less (volunteer_less_irrefl preferred) sorted
          order v (In-sort less v s.volunteers m) h in
      let (r, p) = find_current-first s.retry_volunteer_ref 1 sorted u f in
      (u, r, sort-In less u s.volunteers i, t, p, l)
