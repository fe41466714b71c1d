-- ===== src/Policy/Validate/Mappings.antt =====
-- What the loop over the mappings of `validatePoolPolicy` knows about its keys.
use Prim.Native.Char.{Char}
use resume_platform.Shared.{
  ℕ, String, ◌≡◌, Bool, true, false, ◌&&◌, inl, inr, Option, List, [], ◌∷◌, any, ok, Result-cases,
  arith, str_eq, eq_iff, Bool-cases,
}
use resume_platform.Policy.Standards.{Standard, enabled, normalized}
use resume_platform.Policy.Validate.{mapping_key, add_names, add_mappings}

module _ (to_lower : Char → Char) (job_entity : ℕ → Option String) where
  -- Whether a standard's names give a key, and whether an active standard gives it.
  abbrev gives : String → String → List String → Bool
  gives k entity names = any (λ n. str_eq k (mapping_key to_lower job_entity entity n)) names

  abbrev pub maps : String → Standard → Bool
  maps k s = enabled s.active && gives k s.entity s.application_names

  add_names-keeps :
      (entity k : String) (names mappings out : List String)
      → add_names to_lower job_entity entity names mappings ≡ ok out
      → any (str_eq k) mappings ≡ true
      → any (str_eq k) out ≡ true
  unfolding add_names
  add_names-keeps entity k [] mappings out h m = ground arith
  add_names-keeps entity k (n ∷ names) mappings out h m = ground (
    arith,
    add_names-keeps entity k names (mapping_key to_lower job_entity entity n ∷ mappings) out,
  )

  pub add_names-adds :
      (entity k : String) (names mappings out : List String)
      → add_names to_lower job_entity entity names mappings ≡ ok out
      → gives k entity names ≡ true
      → (any (str_eq k) out ≡ true) × (any (str_eq k) mappings ≡ false)
  unfolding add_names
  add_names-adds entity k [] mappings out h m = ground arith
  add_names-adds entity k (n ∷ names) mappings out h m =
      let key = mapping_key to_lower job_entity entity n in
      ground (
        arith,
        eq_iff k key,
        add_names-keeps entity k names (key ∷ mappings) out,
        add_names-adds entity k names (key ∷ mappings) out,
      )

  -- The two steps of the outer loop: an inactive standard is passed over, an active one adds names.
  pub add_mappings-inactive :
      (s : Standard) (ss : List Standard) (mappings out : List String)
      → add_mappings to_lower job_entity (s ∷ ss) mappings ≡ ok out
      → enabled s.active ≡ false
      → add_mappings to_lower job_entity ss mappings ≡ ok out
  unfolding add_mappings
  add_mappings-inactive s ss mappings out h e = ground arith

  pub add_mappings-active :
      (s : Standard) (ss : List Standard) (mappings out : List String)
      → add_mappings to_lower job_entity (s ∷ ss) mappings ≡ ok out
      → enabled s.active ≡ true
      → (more : List String) × (add_names to_lower job_entity s.entity s.application_names mappings
          ≡ ok more)
        × (add_mappings to_lower job_entity ss more ≡ ok out)
  unfolding add_mappings
  add_mappings-active s ss mappings out h e =
      elim (Result-cases (add_names to_lower job_entity s.entity s.application_names mappings)) [
        | inl (more, p) ↦ (more, p, ground arith)
        | inr (failure, p) ↦ absurd (ground arith)
      ]

  pub add_mappings-new :
      (k : String) (ss : List Standard) (mappings out : List String)
      → add_mappings to_lower job_entity ss mappings ≡ ok out
      → any (maps k) ss ≡ true
      → any (str_eq k) mappings ≡ false
  add_mappings-new k [] mappings out h m = ground arith
  add_mappings-new k (s ∷ ss) mappings out h m = elim (Bool-cases (enabled s.active)) [
    | inr e ↦
        ground
          (arith, add_mappings-new k ss mappings out (add_mappings-inactive s ss mappings out h e))
    | inl e ↦
        let (more, p, q) = add_mappings-active s ss mappings out h e in
        ground (
          arith,
          add_mappings-new k ss more out q,
          add_names-keeps s.entity k s.application_names mappings more p,
          add_names-adds s.entity k s.application_names mappings more p,
        )
  ]

  pub gives-mapping_key :
      (e1 e2 position : String) (names : List String)
      → normalized to_lower e1 ≡ normalized to_lower e2
      → any (λ n. str_eq (normalized to_lower n) (normalized to_lower position)) names ≡ true
      → gives (mapping_key to_lower job_entity e1 position) e2 names ≡ true
  gives-mapping_key e1 e2 position [] e h = ground arith
  gives-mapping_key e1 e2 position (n ∷ names) e h = ground (
    arith,
    eq_iff (normalized to_lower n) (normalized to_lower position),
    eq_iff (mapping_key to_lower job_entity e1 position) (mapping_key to_lower job_entity e2 n),
    gives-mapping_key e1 e2 position names e,
  )
