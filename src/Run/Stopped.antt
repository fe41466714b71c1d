-- ===== src/Run/Stopped.antt =====
-- The end of a run that failed or was cancelled: `stopRun` of internal/platform/runs.go.
use resume_platform.Shared.{
  sym, subst, ap, ◌∙◌, ◌⊎◌, Option-cases, arith, ℕ, ◌≡◌, refl, String, Bool, true, false, Option,
  none, some, List, [], ◌∷◌, All, ok, inl, inr, str_eq, Bool-cases,
}
use resume_platform.Candidate.Case.{
  Case, Status, Application, status_eq, find_row, ApplicationEvent,
}
use resume_platform.Candidate.Application.{application_key, write_application}
use resume_platform.Candidate.Application.Moves.{application_state-moves, write_application-writes}
use resume_platform.Candidate.Transaction.{◌>>=◌}
use resume_platform.Run.{active_run}
use resume_platform.Run.Progress.{Counts, update_where, Stage, Item, Board}
use resume_platform.Run.Rows.{All-update_where, update_where-clears, All-zip}
use resume_platform.Run.Summary.{
  Cause, failure_info, open_stage, open_item, stopped_rows, stopped_stage, skipped_stage,
  claimed_resume, held_by, release_workflow, stop_case, stop_cases, stop_claims, stop_run, counted,
  summarize_run, summarized, prepared_resume, assessed,
}

abbrev IsClosed : Stage → Type 0
IsClosed s = (open_stage s.status ≡ false) × (str_eq s.status "pending" ≡ false)

-- An item of the run holds the candidate's workflow, and the application of its resume is being
-- assessed.
pub record Claims (items : List Item) (c : Case) (resume : ℕ) : Type 0 where
  pub item_id : ℕ
  pub item : Item
  pub application : Application
  pub active : c.workflow.active_processing_scope_item_id ≡ some item_id
  pub row : find_row (λ (i : Item). i.id) item_id items ≡ some item
  pub prepared : item.prepared_resume_id ≡ some resume
  pub found : find_row application_key resume c.applications ≡ some application
  pub assessing : application.status ≡ Status.assessing

-- The application under assessment is blocked with this message, and the change is logged.
pub record IsBlocked (message : String) (resume : ℕ) (before after : Case) : Type 0 where
  pub application : Application
  pub found : find_row application_key resume after.applications ≡ some application
  pub status : application.status ≡ Status.blocked
  pub reason : application.reason ≡ message
  pub event : ApplicationEvent
  pub logged : after.application_events ≡ event ∷ before.application_events
  pub change : (event.resume_id ≡ resume) × (event.to_status ≡ Status.blocked)

-- A candidate before and after: the workflow is held by no item of the run any more, and the
-- application that the run was assessing, if there is one, is blocked; there is no other change of
-- applications.
pub record IsReleased (items : List Item) (message : String) (before after : Case) : Type 0 where
  pub free : held_by items after.workflow.active_processing_scope_item_id ≡ false
  pub applications :
      ((resume : ℕ) × Claims items before resume × IsBlocked message resume before after)
      ⊎ (((resume : ℕ) → Claims items before resume → ⊥)
          × (after.applications ≡ before.applications)
          × (after.application_events ≡ before.application_events))

abbrev pub AllReleased : List Item → String → List Case → List Case → Type 0
AllReleased items message [] [] = Unit
AllReleased items message (c ∷ cs) (d ∷ ds) =
    IsReleased items message c d × AllReleased items message cs ds
AllReleased items message _ _ = ⊥

-- Nothing of the run is left open: it has ended, no stage is pending, running or waiting, no item is
-- pending, processing or waiting, and every candidate is released, with the applications under
-- assessment blocked.
pub record IsStopped (message : String) (before b : Board) : Type 0 where
  pub ended : active_run b.run.status ≡ false
  pub at : b.run.finished_at ≡ some b.now
  pub stages : All IsClosed b.stages
  pub items : All (λ (i : Item). open_item i.status ≡ false) b.items
  pub released : AllReleased b.items message before.cases b.cases

status_eq-assessing : (s : Status) → status_eq s Status.assessing ≡ true → s ≡ Status.assessing
status_eq-assessing Status.assessing h = refl
status_eq-assessing Status.pending h = absurd (cc)
status_eq-assessing Status.blocked h = absurd (cc)
status_eq-assessing Status.pending_review h = absurd (cc)
status_eq-assessing Status.pending_allocation h = absurd (cc)
status_eq-assessing Status.needs_reanalysis h = absurd (cc)
status_eq-assessing Status.pending_dispatch h = absurd (cc)
status_eq-assessing Status.department_review h = absurd (cc)
status_eq-assessing Status.cancelled h = absurd (cc)
status_eq-assessing Status.ai_rejected h = absurd (cc)
status_eq-assessing Status.department_rejected h = absurd (cc)
status_eq-assessing Status.review_rejected h = absurd (cc)
status_eq-assessing Status.passed h = absurd (cc)

some_of : (x y : ℕ) → some x ≡ some y → x ≡ y
some_of x y h = ap (λ (o : Option ℕ). elim o [ none ↦ x | some z ↦ z ]) h

prepared_resume-inverse :
    (items : List Item) (o : Option ℕ) (resume : ℕ)
    → prepared_resume items o ≡ some resume
    → (id : ℕ) × (i : Item) × (o ≡ some id)
      × (find_row (λ (i : Item). i.id) id items ≡ some i)
      × (i.prepared_resume_id ≡ some resume)
prepared_resume-inverse items none resume h = absurd (ground arith)
prepared_resume-inverse items (some id) resume h =
    elim (Option-cases (find_row (λ (i : Item). i.id) id items)) [
      | inl e ↦ absurd (let no : none ≡ some resume = rw (e, prepared_resume) at h in ground arith)
      | inr (i, e) ↦ (id, i, refl, e, rw (e, prepared_resume) at h)
    ]

assessed-inverse :
    (o : Option ℕ) (c : Case) (resume : ℕ)
    → assessed o c ≡ some resume
    → (a : Application) × (o ≡ some resume)
      × (find_row application_key resume c.applications ≡ some a)
      × (a.status ≡ Status.assessing)
assessed-inverse none c resume h = absurd (ground arith)
assessed-inverse (some r) c resume h =
    elim (Option-cases (find_row application_key r c.applications)) [
      | inl e ↦ absurd (let no : none ≡ some resume = rw (e, assessed) at h in ground arith)
      | inr (a, e) ↦ elim (Bool-cases (status_eq a.status Status.assessing)) [
        | inr q ↦
            absurd (let no : none ≡ some resume = rw q at (rw (e, assessed) at h) in ground arith)
        | inl q ↦
            let same : some r ≡ some resume = rw q at (rw (e, assessed) at h) in
            let own : r ≡ resume = some_of r resume same in
            (
              a,
              same,
              subst (λ n. find_row application_key n c.applications ≡ some a) own e,
              status_eq-assessing a.status q,
            )
      ]
    ]

claimed_resume-Claims :
    (items : List Item) (c : Case) (resume : ℕ)
    → claimed_resume items c ≡ some resume
    → Claims items c resume
claimed_resume-Claims items c resume h =
    let (a, given, found, assessing) =
      assessed-inverse (prepared_resume items c.workflow.active_processing_scope_item_id) c resume
        h in
    let (id, i, active, row, prepared) =
      prepared_resume-inverse items c.workflow.active_processing_scope_item_id resume given in
    record {
      item_id = id;
      item = i;
      application = a;
      active = active;
      row = row;
      prepared = prepared;
      found = found;
      assessing = assessing;
    }

row-prepared :
    (items : List Item) (id : ℕ) (i : Item)
    → find_row (λ (i : Item). i.id) id items ≡ some i
    → prepared_resume items (some id) ≡ i.prepared_resume_id
row-prepared items id i h = rw (h, prepared_resume) refl

found-assessed :
    (c : Case) (resume : ℕ) (a : Application)
    → find_row application_key resume c.applications ≡ some a
    → a.status ≡ Status.assessing
    → assessed (some resume) c ≡ some resume
found-assessed c resume a h s = rw (h, assessed) (rw s refl)

Claims-claimed_resume :
    (items : List Item) (c : Case) (resume : ℕ)
    → Claims items c resume
    → claimed_resume items c ≡ some resume
Claims-claimed_resume items c resume k =
    ap (λ o. assessed (prepared_resume items o) c) k.active
    ∙ (ap (λ o. assessed o c) (row-prepared items k.item_id k.item k.row ∙ k.prepared)
        ∙ found-assessed c resume k.application k.found k.assessing)

applications-release_workflow :
    (items : List Item) (c : Case)
    → ((release_workflow items c).applications ≡ c.applications)
      × ((release_workflow items c).application_events ≡ c.application_events)
applications-release_workflow items c =
    elim (Bool-cases (held_by items c.workflow.active_processing_scope_item_id)) [
      | inl e ↦ (rw e refl, rw e refl)
      | inr e ↦ (rw e refl, rw e refl)
    ]

release_workflow-frees :
    (items : List Item) (c : Case)
    → held_by items (release_workflow items c).workflow.active_processing_scope_item_id ≡ false
release_workflow-frees items c =
    elim (Bool-cases (held_by items c.workflow.active_processing_scope_item_id)) [
      | inl e ↦ rw e refl
      | inr e ↦ rw e e
    ]

-- The application of the claim is blocked.
stop_case-blocks :
    (items : List Item) (message : String) (c : Case) (resume : ℕ)
    → claimed_resume items c ≡ some resume
    → (c' : Case) × (stop_case items message c ≡ ok (tt, c')) × IsReleased items message c c'
unfolding stop_case ◌>>=◌
stop_case-blocks items message c resume h =
    let k = claimed_resume-Claims items c resume h in
    let moved =
      application_state-moves resume Status.blocked message c k.application k.found
        (rw (k.assessing) refl) (rw (k.assessing) refl) in
    let (a, found, status, reason, logged) =
      write_application-writes resume Status.blocked message c k.application k.found in
    let written : Case = write_application k.application Status.blocked message c in
    let (same, events) = applications-release_workflow items written in
    (
      release_workflow items written,
      rw h (rw moved refl),
      record {
        free = release_workflow-frees items written;
        applications = inl (
          resume,
          k,
          record {
            application = a;
            found = subst (λ rows. find_row application_key resume rows ≡ some a) (sym same) found;
            status = status;
            reason = reason;
            event = record {
              resume_id = resume;
              from_status = k.application.status;
              to_status = Status.blocked;
              reason = message;
            };
            logged = events ∙ logged;
            change = (refl, refl);
          },
        );
      },
    )

stop_case-releases :
    (items : List Item) (message : String) (c : Case)
    → (c' : Case) × (stop_case items message c ≡ ok (tt, c')) × IsReleased items message c c'
unfolding stop_case ◌>>=◌
stop_case-releases items message c = elim (Option-cases (claimed_resume items c)) [
  | inr (resume, e) ↦ stop_case-blocks items message c resume e
  | inl e ↦ (
    release_workflow items c,
    rw e refl,
    record {
      free = release_workflow-frees items c;
      applications = inr (
        (λ resume k.
            let no : none ≡ some resume = sym e ∙ Claims-claimed_resume items c resume k in
            ground arith),
        (applications-release_workflow items c).0,
        (applications-release_workflow items c).1,
      );
    },
  )
]

stop_cases-releases :
    (items : List Item) (message : String) (cs : List Case)
    → (cs' : List Case) × (stop_cases items message cs ≡ ok (tt, cs'))
      × AllReleased items message cs cs'
unfolding stop_cases
stop_cases-releases items message [] = ([], refl, tt)
stop_cases-releases items message (c ∷ cs) =
    let (c', h, p) = stop_case-releases items message c in
    let (cs', hs, ps) = stop_cases-releases items message cs in
    (c' ∷ cs', rw h (rw hs refl), (p, ps))

stopped_stage-open :
    (cancelled : Bool) (message : String) (now : ℕ) (s : Stage)
    → open_stage (stopped_stage cancelled message now s).status ≡ false
stopped_stage-open true message now s = refl
stopped_stage-open false message now s = refl

stages-IsClosed :
    (cancelled : Bool) (message : String) (now : ℕ) (counts : Counts) (stages : List Stage)
    → All IsClosed (
        update_where
          (λ (s : Stage). str_eq s.step "step4")
          (λ s. record s { counts = counts })
          (update_where
            (λ (s : Stage). str_eq s.status "pending")
            (skipped_stage now)
            (update_where
              (λ (s : Stage). open_stage s.status)
              (stopped_stage cancelled message now)
              stages)))
stages-IsClosed cancelled message now counts stages =
    let stopped =
      update_where (λ (s : Stage). open_stage s.status) (stopped_stage cancelled message now)
        stages in
    let skipped =
      update_where (λ (s : Stage). str_eq s.status "pending") (skipped_stage now) stopped in
    All-update_where IsClosed (λ (s : Stage). str_eq s.step "step4")
      (λ s. record s { counts = counts }) skipped (λ s q. q)
      (All-zip _ _ skipped
        (All-update_where (λ (s : Stage). open_stage s.status ≡ false)
          (λ (s : Stage). str_eq s.status "pending") (skipped_stage now) stopped (λ s q. refl)
          (update_where-clears (λ (s : Stage). open_stage s.status)
            (stopped_stage cancelled message now) stages
            (stopped_stage-open cancelled message now)))
        (update_where-clears (λ (s : Stage). str_eq s.status "pending") (skipped_stage now) stopped
          λ s. refl))

module _ (report : ℕ → ℕ → ℕ → ℕ → String) where
  stopped_rows-IsStopped :
      (cancelled : Bool) (code message : String) (b : Board) (cs : List Case)
      → AllReleased (stopped_rows cancelled code message b).items message b.cases cs
      → IsStopped message b
          (summarized report false (record (stopped_rows cancelled code message b) { cases = cs }))
  stopped_rows-IsStopped true code message b cs h = record {
    ended = refl;
    at = refl;
    stages =
        stages-IsClosed true message b.now
          (counted (record (stopped_rows true code message b) { cases = cs })) b.stages;
    items = update_where-clears (λ (i : Item). open_item i.status) _ b.items λ i. refl;
    released = h;
  }
  stopped_rows-IsStopped false code message b cs h = record {
    ended = refl;
    at = refl;
    stages =
        stages-IsClosed false message b.now
          (counted (record (stopped_rows false code message b) { cases = cs })) b.stages;
    items = update_where-clears (λ (i : Item). open_item i.status) _ b.items λ i. refl;
    released = h;
  }

  -- `stopRun` always commits, for any error and any rows, and leaves nothing of the run open: the
  -- run has ended, no stage or item is open, no item of the run holds a workflow, and an application
  -- that the run was assessing is blocked with the message of the error, and this is logged.
  pub stop_run-IsStopped :
      (cause : Cause) (b : Board)
      → (b' : Board) × (stop_run report cause b ≡ ok (tt, b'))
        × IsStopped (failure_info cause).1 b b'
  unfolding stop_run stop_claims summarize_run ◌>>=◌
  stop_run-IsStopped cause b =
      let (code, message) = failure_info cause in
      let cancelled = str_eq code "agent_cancelled" in
      let rows = stopped_rows cancelled code message b in
      let (cs, h, free) = stop_cases-releases rows.items message b.cases in
      (
        summarized report false (record rows { cases = cs }),
        rw h refl,
        stopped_rows-IsStopped cancelled code message b cs free,
      )
