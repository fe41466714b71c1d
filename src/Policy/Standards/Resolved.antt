-- ===== src/Policy/Standards/Resolved.antt =====
-- What a resolved standard is: soundness of `resolveApplicationStandard`, for any policy.
use Prim.Native.Char.{Char}
use resume_platform.Shared.{◌≡◌, true, ◌⊎◌, inl, Option, none, some, List, [], ◌∷◌, In, arith}
use resume_platform.Policy.Standards.{
  Standard, Policy, Volunteer, considered, names_match, find_standard,
}

module _ (to_lower : Char → Char) (policy : Policy) (current : Volunteer) where
  -- A standard that the loop may take.
  abbrev pub Fitting : Standard → Type 0
  Fitting s =
      (considered to_lower policy current s ≡ true) × (names_match to_lower current s ≡ true)

  find_standard-Fitting :
      (found : Option Standard) (ss : List Standard) (s : Standard)
      → find_standard to_lower policy current found ss ≡ some (some s)
      → (found ≡ some s) ⊎ (In s ss × Fitting s)
  unfolding find_standard
  find_standard-Fitting found [] s h = inl (ground arith)
  find_standard-Fitting none (x ∷ ss) s h =
      ground (arith, find_standard-Fitting none ss s, find_standard-Fitting (some x) ss s)
  find_standard-Fitting (some f) (x ∷ ss) s h =
      ground (arith, find_standard-Fitting (some f) ss s, find_standard-Fitting (some x) ss s)

  pub find_standard-fits :
      (s : Standard)
      → find_standard to_lower policy current none policy.standards ≡ some (some s)
      → In s policy.standards × Fitting s
  find_standard-fits s h = ground (arith, find_standard-Fitting none policy.standards s h)
