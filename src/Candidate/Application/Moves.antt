-- ===== src/Candidate/Application/Moves.antt =====
-- `applicationState` of internal/platform/applications.go where the application is open.
use resume_platform.Shared.{
  ℕ, ◌≡◌, refl, sym, subst, Option, none, String, false, some, ok, ◌∙◌, ◌∷◌, ==_iff, if◌then◌else◌,
}
use resume_platform.Candidate.Case.{
  Case, Status, Application, status_eq, closed_application, find_row, key-find_row,
  find_row-update_row,
}
use resume_platform.Candidate.Transaction.{◌>>=◌}
use resume_platform.Candidate.Application.{
  application_key, application_state, change_application, ensure_application, write_application,
}

ensure_application-there :
    (resume : ℕ) (c : Case) (a : Application)
    → find_row application_key resume c.applications ≡ some a
    → ensure_application resume c ≡ c
unfolding ensure_application
ensure_application-there resume c a h = rw (h, ensure_application) refl

change_application-moves :
    (found : Option Application) (status : Status) (reason : String) (c : Case) (a : Application)
    → found ≡ some a
    → status_eq a.status status ≡ false
    → closed_application a.status ≡ false
    → change_application found status reason c ≡ ok (tt, write_application a status reason c)
unfolding change_application ◌>>=◌
change_application-moves none status reason c a h s o = cc
change_application-moves (some b) status reason c a h s o =
    let e : b ≡ a = cc in rw e (rw s (rw o refl))

-- An open application takes another status, and the change is logged.
pub application_state-moves :
    (resume : ℕ) (status : Status) (reason : String) (c : Case) (a : Application)
    → find_row application_key resume c.applications ≡ some a
    → status_eq a.status status ≡ false
    → closed_application a.status ≡ false
    → application_state resume status reason c ≡ ok (tt, write_application a status reason c)
unfolding application_state ◌>>=◌
application_state-moves resume status reason c a h s o =
    subst
      (λ e.
        change_application (find_row application_key resume e.applications) status reason e
        ≡ ok (tt, write_application a status reason c))
      (sym (ensure_application-there resume c a h))
      (change_application-moves _ status reason c a h s o)

-- The row that is written, and the event.
pub write_application-writes :
    (resume : ℕ) (status : Status) (reason : String) (c : Case) (a : Application)
    → find_row application_key resume c.applications ≡ some a
    → (a' : Application) × (find_row application_key resume
          (write_application a status reason c).applications
        ≡ some a')
      × (a'.status ≡ status)
      × (a'.reason ≡ reason)
      × ((write_application a status reason c).application_events
          ≡ record {
            resume_id = resume;
            from_status = a.status;
            to_status = status;
            reason = reason;
          }
            ∷ c.application_events)
unfolding write_application
write_application-writes resume status reason c a h =
    let own : a.resume_id ≡ resume = key-find_row application_key resume c.applications a h in
    let written : Application = record a {
      status = status;
      reason = reason;
      updated_at = c.now;
      completed_at = if closed_application status then some c.now else none;
    } in
    (
      written,
      find_row-update_row application_key a.resume_id resume _ c.applications (λ x. refl)
          ∙ rw ((==_iff a.resume_id resume).1 own) (rw h refl),
      refl,
      refl,
      rw own refl,
    )
