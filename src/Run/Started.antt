-- ===== src/Run/Started.antt =====
-- The rows of a run that `createRun` of internal/platform/runs.go has just created.
use resume_platform.Shared.{
  ℕ, zero, suc, keep, In, ◌≢◌, ◌+◌, ◌≡◌, none, some, List, [], ◌∷◌, All, any, length, ◌==◌,
}
use resume_platform.Run.Progress.{Item, Board}
use resume_platform.Run.Tally.{Recorded}
use resume_platform.Run.Creation.{Candidate, Continued, Request, Store}

-- The values of a column.
abbrev pub mapped : {A B : Type 0} → (A → B) → List A → List B
mapped f [] = []
mapped f (x ∷ xs) = f x ∷ mapped f xs

-- The identifiers of the candidates that are requested, as the table lists them.
abbrev pub requested : List ℕ → List Candidate → List ℕ
requested ids cs =
    mapped (λ (c : Candidate). c.id) (keep (λ (c : Candidate). any (λ id. id == c.id) ids) cs)

-- So many identifiers from the first on.
abbrev pub count_up : ℕ → ℕ → List ℕ
count_up first zero = []
count_up first (suc n) = first ∷ count_up (first + 1) n

-- A new run that nobody asked to cancel, with one item for each row of the table that is requested,
-- as many as there are identifiers, under fresh identifiers and none of them ended; the queue has its
-- job, and everything that was there before stays.
pub record IsStarted (r : Request) (before : Store) (k : ℕ) (s : Store) : Type 0 where
  pub board : Board
  pub fresh : k ≡ before.next_run
  pub stored : s.runs k ≡ some board
  pub kept : (j : ℕ) → j ≢ k → s.runs j ≡ before.runs j
  pub queue : s.jobs ≡ k ∷ before.jobs
  pub candidates :
      mapped (λ (i : Item). i.candidate_id) board.items ≡ requested r.ids before.candidates
  pub rows : length board.items ≡ length r.ids
  pub numbered : mapped (λ (i : Item). i.id) board.items ≡ count_up before.next_item (length r.ids)
  pub onward : (s.next_run ≡ k + 1) × (s.next_item ≡ before.next_item + length r.ids)
  pub recorded : All Recorded board.items
  pub free : board.run.cancel_requested_at ≡ none

-- A continuation of the one candidate that was started before under the same expected revision.
pub record IsContinued (r : Request) (before : Store) (k : ℕ) : Type 0 where
  pub prior : Continued
  pub known : In prior before.continued
  pub run : prior.run ≡ k
  pub candidate : r.ids ≡ prior.candidate ∷ []
  pub resume : prior.resume ≡ r.retry_resume_id
  pub revision : r.expected_workflow_revision ≡ some prior.revision
