-- ===== src/Run.antt =====
-- The stages and items of a processing run: internal/platform/runs.go and processing.go. The numbers
-- of a request are those that are integers; another JSON value is `none`.
pub mod Tests
pub mod Identifiers
pub mod Progress
pub mod Summary
pub mod History
pub mod Rows
pub mod Tally
pub mod Stopped
pub mod Jobs
pub mod Leases
pub mod Creation
pub mod Started
use resume_platform.Shared.{
  ℕ, ◌+◌, String, Bool, true, false, not, ◌&&◌, ◌||◌, Option, none, some, List, [], ◌∷◌, ◌++◌, any,
  length, Result, ok, err, bad, ◌>>=◌, ◌==◌, str_eq, if◌then◌else◌,
}

-- `activeRun` and `terminalItem`
abbrev pub active_run : String → Bool
active_run s = any (str_eq s) ("pending" ∷ "running" ∷ "waiting_conflict" ∷ "cancelling" ∷ [])

abbrev pub terminal_item : String → Bool
terminal_item s =
    any (str_eq s)
      ("success" ∷ "needs_attention" ∷ "failed" ∷ "skipped_manual_change" ∷ "cancelled" ∷ [])

-- `stageSteps`
abbrev stage_steps : String → List String
stage_steps step =
    if str_eq step "all" || str_eq step "resume_process"
    then "step1" ∷ "step2" ∷ "step3" ∷ "step4" ∷ []
    else if str_eq step "step2"
    then "step2" ∷ "step3" ∷ "step4" ∷ []
    else if str_eq step "step3"
    then "step3" ∷ "step4" ∷ []
    else step ∷ []

-- The stages that `createRun` writes, in order.
abbrev pub stages : String → List String
stages step =
    ("queued" ∷ "initialize" ∷ [])
    ++ ((if str_eq step "step1" then [] else "preparing" ∷ [])
        ++ (stage_steps step ++ ("finalize" ∷ [])))

-- The loop of `positiveIDs`: `seen` are the identifiers so far.
unfoldable pub collect_ids : List ℕ → List (Option ℕ) → Result (List ℕ)
collect_ids seen [] = ok []
collect_ids seen (none ∷ values) = err (bad "ID 必须是正整数")
collect_ids seen (some n ∷ values) =
    if n == 0
    then err (bad "ID 必须是正整数")
    else if any (λ m. m == n) seen
    then collect_ids seen values
    else collect_ids (n ∷ seen) values >>= λ ids. ok (n ∷ ids)

-- `positiveIDs`
unfoldable pub positive_ids : List (Option ℕ) → Result (List ℕ)
positive_ids [] = err (bad "必须提供非空的正整数 ID 数组")
positive_ids (v ∷ values) = collect_ids [] (v ∷ values)

-- The revisions that `revisionChanged` compares: of the workflow at the submission, of a
-- continuation, and of the workflow now.
abbrev pub revision_changed : Option ℕ → Option ℕ → ℕ → Bool
revision_changed submitted (some continuation) now = not (continuation == now)
revision_changed none none now = not (now == 0)
revision_changed (some submitted) none now = not (submitted == now)

-- `forceReprocess`, of the scope's `source` and `force_reprocess`
abbrev pub force_reprocess : String → Bool → Bool
force_reprocess source forced =
    if str_eq source "schedule" then false else forced || str_eq source "ai_retry"

-- What `itemOutcome` writes.
pub record Outcome : Type 0 where
  pub status : String
  pub processing_node : String
  pub result_type : String
  pub reason_code : String
  pub result_message : String
  pub error_code : Option String

abbrev pub item_outcome : String → String → String → Outcome
item_outcome status code message = record {
  status = status;
  processing_node =
      if str_eq status "success" || str_eq status "skipped_manual_change" then "done" else status;
  result_type =
      if str_eq status "success"
      then "completed"
      else if str_eq status "skipped_manual_change"
      then ""
      else status;
  reason_code = code;
  result_message = message;
  error_code =
      if str_eq status "failed" || str_eq status "needs_attention" then some code else none;
}
