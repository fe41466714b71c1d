-- ===== src/Task/Creation.antt =====
-- The creation of a task, for any statement of what holds before and after.
use resume_platform.Shared.{
  ℕ, ◌≡◌, refl, sym, ◌∙◌, subst, String, Bool, false, not, ◌&&◌, ◌||◌, Option, none, some, List,
  length, ltb, ◌==◌, str_eq, if◌then◌else◌, api_error, text_len,
}
use resume_platform.Candidate.Transaction.{pure, fail}
use resume_platform.Candidate.Transaction.Triples.{
  Triple, Triple-pure, Triple-fail, Triple-if, Triple-if_none, Triple-refuse, Triple-gets,
  Triple-bind, Triple-Image,
}
use resume_platform.Task.{Task, Desk}
use resume_platform.Task.Queue.{
  Request, find_key, insert_task, enqueued, hash_of, num, reuse, create_task,
}

-- The key that a request is filed under.
abbrev pub key_of : Request → String → String
key_of r fresh = if str_eq r.key "" then fresh else r.key

-- The desk after a creation.
abbrev pub created : Request → String → String → Desk → Desk
created r key hash d = enqueued r d.next_task_id (insert_task r key hash d)

-- The number of members and the mode that a request is refused for.
abbrev pub refused : Request → Bool
refused r =
    length r.members == 0
    || (ltb 100 (length r.members) || not (str_eq r.mode "simulate" || str_eq r.mode "execute"))

abbrev pub differs : String → Request → Task → Bool
differs hash r t = not (str_eq t.input_hash hash) || not (num t.created_by == num r.actor)

module _ (fingerprint : ℕ → List ℕ → String → String → String) where
  -- What a creation that succeeds has checked of the request.
  pub record Checked (r : Request) (key : String) (d : Desk) : Type 0 where
    pub running : (d.scope.paused && not (str_eq r.mode "simulate")) ≡ false
    pub sized : refused r ≡ false
    pub short : ltb 128 (text_len key) ≡ false

  reuse-Triple :
      {P : Desk → Type 0} {Q : ℕ → Desk → Type 0} (r : Request) (hash : String) (o : Option Task)
      (k : ℕ)
      → ((d : Desk) (t : Task) → P d → o ≡ some t → differs hash r t ≡ false → Q k d)
      → Triple P (reuse fingerprint r hash o k) Q
  reuse-Triple r hash none k h = Triple-fail _
  reuse-Triple r hash (some t) k h =
      Triple-if (differs hash r t) (fail (api_error 409 "幂等键已用于不同请求")) (pure k)
        (λ _. Triple-fail (api_error 409 "幂等键已用于不同请求")) λ e. Triple-pure k λ d p. h d t p refl e

  -- A creation that succeeds makes a new task where the key is unknown, and leaves the desk as it is
  -- where it is known, to a task for the same inputs and creator.
  pub create_task-Triple :
      {P : Desk → Type 0} {Q : ℕ → Desk → Type 0} (r : Request) (fresh : String)
      → ((d : Desk)
          → P d
          → Checked r (key_of r fresh) d
          → find_key (key_of r fresh) d ≡ none
          → Q d.next_task_id (created r (key_of r fresh) (hash_of fingerprint r d) d))
      → ((d : Desk) (k : ℕ) (t : Task)
          → P d
          → Checked r (key_of r fresh) d
          → find_key (key_of r fresh) d ≡ some k
          → d.tasks k ≡ some t
          → differs (hash_of fingerprint r d) r t ≡ false
          → Q k d)
      → Triple P (create_task fingerprint r fresh) Q
  unfolding create_task
  create_task-Triple {P} {Q} r fresh new old = Triple-bind _ _ (Triple-gets _) λ paused.
      Triple-bind _ _ (Triple-refuse _ _) λ _. Triple-bind _ _ (Triple-refuse _ _) λ _.
        Triple-bind _ _ (Triple-refuse _ _) λ _. Triple-bind _ _ (Triple-gets _) λ hash.
          Triple-bind _ _ (Triple-gets _) λ existing.
            Triple-if_none existing _ _
              (λ unknown. Triple-bind _ _ (Triple-gets _) λ id.
                Triple-bind _ _ (Triple-Image _) λ _. Triple-bind _ _ (Triple-Image _) λ _.
                  Triple-pure id λ s (e, (d, p, q), q').
                    let checked : Checked r (key_of r fresh) d = record {
                      running = rw (p.0.0.0.0.0.0.1) p.0.0.0.0.0.1;
                      sized = p.0.0.0.0.1;
                      short = p.0.0.0.1;
                    } in
                    let start = new d p.0.0.0.0.0.0.0 checked (p.0.1 ∙ unknown) in
                    let under =
                      subst (λ h. Q d.next_task_id (created r (key_of r fresh) h d)) p.0.0.1
                        start in
                    let at =
                      subst (λ i. Q i (enqueued r i (insert_task r (key_of r fresh) hash d))) p.1
                        under in
                    subst (Q id) (sym q') (subst (λ x. Q id (enqueued r id x)) (sym q) at))
              λ k known. Triple-bind _ _ (Triple-gets _) λ t.
                reuse-Triple r hash t k λ d u p h differ.
                  old d k u p.0.0.0.0.0.0.0
                    (record {
                      running = rw (p.0.0.0.0.0.0.1) p.0.0.0.0.0.1;
                      sized = p.0.0.0.0.1;
                      short = p.0.0.0.1;
                    })
                    (p.0.1 ∙ known) (p.1 ∙ h) (rw (p.0.0.1) differ)
