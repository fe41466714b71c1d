-- ===== src/Lib.antt =====
-- Verification of resume-platform, the Go service under internal/ that imports applications, has
-- them assessed, and allocates candidates to departments.
--
-- The parts and how they interact. A candidate has resumes (applications); a run prepares a snapshot
-- of the candidate (internal/platform/policy.go) under a pool policy (pools_policy.go), an external
-- kernel assesses it, and a second kernel proposes an allocation to the demands of departments, which
-- the platform recomputes (allocation_policy.go) before it creates an attempt (workflows.go). Users
-- dispatch, transfer and answer attempts under the grants of contact_grants.go, and the state of each
-- application is logged (applications.go). Schedules (schedules.go) start runs at times. Listings
-- are paged (pagination.go). Allocations are computed in tasks (allocation_tasks.go): a worker
-- claims a task of a scope under a lease, computes without a lock, and commits if it still holds the
-- lease (allocation_execute.go). The text of a resume comes from its PDF (internal/pdftext).
--
-- The files:
--   Shared          tests, lists, integers, results, texts and stable sorting for all parts
--   Allocation      Types: internal/contract/allocation_types.go; Plan: expectedAllocation of
--                   internal/platform/allocation_policy.go, loop by loop; Plan/Result:
--                   validateAllocationResult
--   Candidate       Case: the rows of one candidate; Transaction: a database transaction as a state
--                   monad with failure; Application: applications.go and closePoolMemberships of
--                   pools.go; Workflow: workflows.go; Workflow/Action: mutateAttempt; History: any
--                   sequence of these operations; Retention: retainApplicationWork
--   Policy          Standards: resolveApplicationStandard; Validate: validatePoolPolicy; Snapshot:
--                   prepareSnapshot and preferredEntity of policy.go; Preparation: these together;
--                   Continuation: the snapshot of continueAfterAIRejection
--   Access          contact_grants.go, departments.go, screeners.go and the permissions of auth.go
--   Material        Extractor: internal/pdftext/extractor.go; Validation and Cache: validText and
--                   extractText of internal/platform/kernel.go; Characters: the standard library's
--                   functions on texts that these call
--   Task            Queue: internal/platform/allocation_tasks.go; Commit: allocation_execute.go;
--                   Control: cancel, retry and pause of allocation_api.go; Sound to Claiming: the
--                   invariant, operation by operation; History: any sequence of operations by users
--                   and workers; Idempotence: createAllocationTask under a key
--   Run             the identifiers, stages and outcomes of internal/platform/runs.go and
--                   processing.go; Progress: beginStage, finishStage and itemOutcome; Summary:
--                   summarizeRun, cancelRun and stopRun, which blocks the applications of Candidate;
--                   Jobs: the queue, worker and the end of executeJob, one statement at a time with
--                   what others write in between; Creation: createRun; History: operations
--                   in any order
--   Schedule        validateSchedule, nextScheduleTime, schedulesAPI and triggerSchedule of
--                   schedules.go
--   Pagination      pageBounds, pageResponse and the rows of a page of pagination.go
--
-- Each definition names the Go function that it translates. A row or a JSON object is a record with
-- the fields that the code reads, a table is a list of rows, a Go map is a function or the list of
-- its keys, an error is a value with its code or status and message, and an instant is a number.
-- Identifiers and counters are natural numbers; none comes near 2^63 in a run of the service.
--
-- Bounds and fuel. Only the walk over the parents of a department runs on fuel: a round for each row
-- of the table and two more, which is shown to be enough for any table, cycles included.
--
-- Parameters: SHA-256 and the tools of Poppler in Material, `fingerprint`, the authorization of a
-- task's creator, the age of its snapshot and the hash of a new snapshot in Task, the printed summary
-- and identifier of a run (`fmt`), the candidates that the scope of a schedule selects, the check
-- against the JSON schema of an allocation response (a third-party library), `unicode.ToLower` (the
-- Unicode tables), the entity of a job (a query), the calendar year of an instant, the check of the
-- saved filters of a schedule, and in Workflow/Action the answers of the access checks.
--
-- Not modelled: the HTTP and SQL plumbing, imports and exports, analytics, login, migrations, the
-- calls of the external kernels and tools, and the free-form payloads, names and actors that are
-- written beside the rows; a database failure, which rolls a transaction back.
mod Shared
pub mod Access
pub mod Allocation
pub mod Candidate
pub mod Material
pub mod Pagination
pub mod Policy
pub mod Run
pub mod Task
pub mod Schedule
