-- ===== src/Candidate/Application/Audit.antt =====
-- The audit log of the applications: it accounts for every status, and closed applications stay.
use resume_platform.Shared.{
  ℕ, String, ◌≡◌, refl, true, false, ◌&&◌, Option, none, some, List, [], ◌∷◌, Bool-cases, ◌⊎◌, inl,
  inr, ok, err, api_error, str_eq, ◌∙◌, sym, ap, subst, arith, ◌==◌, if◌then◌else◌,
}
use resume_platform.Candidate.Case.{
  Case, Status, Application, ApplicationEvent, closed_application, status_eq, find_row,
  find_row-update_row, key-find_row,
}
use resume_platform.Candidate.Transaction.{◌>>=◌}
use resume_platform.Candidate.Transaction.Rules.{Relates, IsPreorder}
use resume_platform.Candidate.Application.{
  application_key, ensure_application, write_application, change_application, application_state,
}

-- The status that the log gives to a resume: that of its latest event, or the initial one.
unfoldable pub logged : ℕ → List ApplicationEvent → Status
logged k [] = Status.pending
logged k (e ∷ es) = if e.resume_id == k then e.to_status else logged k es

abbrev status_of : Option Application → Status
status_of none = Status.pending
status_of (some a) = a.status

-- Each event starts where the log stood for its resume, and never at a closed status.
abbrev Chained : List ApplicationEvent → Type 0
Chained [] = Unit
Chained (e ∷ es) =
    (e.from_status ≡ logged e.resume_id es)
    × (closed_application e.from_status ≡ false)
    × Chained es

pub record Audited (c : Case) : Type 0 where
  pub current :
      (k : ℕ)
      → status_of (find_row application_key k c.applications) ≡ logged k c.application_events
  pub chained : Chained c.application_events

-- What every operation does to the applications of a case.
pub record Accounts (c c' : Case) : Type 0 where
  pub audited : Audited c → Audited c'
  pub retained :
      (k : ℕ) (a : Application)
      → find_row application_key k c.applications ≡ some a
      → closed_application a.status ≡ true
      → find_row application_key k c'.applications ≡ some a

pub Accounts-preorder : IsPreorder Accounts
Accounts-preorder = record {
  stay = λ c. record { audited = λ h. h; retained = λ k a e h. e };
  chain = λ c d e p q. record {
    audited = λ h. q.audited (p.audited h);
    retained = λ k a f h. q.retained k a (p.retained k a f h) h;
  };
}

-- A change of the other rows accounts for the applications.
pub Accounts-elsewhere :
    (c c' : Case)
    → c'.applications ≡ c.applications
    → c'.application_events ≡ c.application_events
    → Accounts c c'
Accounts-elsewhere c c' p q = record {
  audited = λ h. record { current = λ k. rw (p, q) (h.current k); chained = rw q h.chained };
  retained = λ k a e h. rw p e;
}

find_row-ensure_application :
    (r k : ℕ) (c : Case)
    → (find_row application_key k (ensure_application r c).applications
        ≡ find_row application_key k c.applications)
      ⊎ ((find_row application_key k c.applications ≡ none)
          × (status_of (find_row application_key k (ensure_application r c).applications)
              ≡ Status.pending))
unfolding ensure_application find_row
find_row-ensure_application r k c = ground arith

events-ensure_application :
    (r : ℕ) (c : Case) → (ensure_application r c).application_events ≡ c.application_events
unfolding ensure_application
events-ensure_application r c = ground arith

Accounts-ensure_application : (r : ℕ) (c : Case) → Accounts c (ensure_application r c)
Accounts-ensure_application r c = record {
  audited = λ h. record {
    current = λ k.
        ground
          (arith, find_row-ensure_application r k c, h.current k, events-ensure_application r c);
    chained = rw (events-ensure_application r c) h.chained;
  };
  retained = λ k a e h. ground (arith, find_row-ensure_application r k c);
}

Accounts-write_application :
    (prior : Application) (status : Status) (reason : String) (c : Case)
    → find_row application_key prior.resume_id c.applications ≡ some prior
    → closed_application prior.status ≡ false
    → Accounts c (write_application prior status reason c)
unfolding write_application logged
Accounts-write_application prior status reason c found open_prior = record {
  audited = λ h. record {
    current = λ k. ground (
      arith,
      find_row-update_row application_key prior.resume_id k
          (λ a. record a {
            status = status;
            reason = reason;
            updated_at = c.now;
            completed_at = if closed_application status then some c.now else none;
          })
          c.applications (λ x. refl),
      h.current k,
    );
    chained = (sym (ap status_of found) ∙ h.current prior.resume_id, open_prior, h.chained);
  };
  retained = λ k a e closed_a. ground (
    arith,
    find_row-update_row application_key prior.resume_id k
        (λ a. record a {
          status = status;
          reason = reason;
          updated_at = c.now;
          completed_at = if closed_application status then some c.now else none;
        })
        c.applications (λ x. refl),
  );
}

Accounts-change_application :
    (k : ℕ) (o : Option Application) (status : Status) (reason : String) (c c' : Case)
    (u : Unit {0})
    → find_row application_key k c.applications ≡ o
    → change_application o status reason c ≡ ok (u, c')
    → Accounts c c'
unfolding change_application ◌>>=◌
Accounts-change_application k none status reason c c' u found h = cc
Accounts-change_application k (some prior) status reason c c' u found h =
    elim (Bool-cases (status_eq prior.status status && str_eq prior.reason reason)) [
      | inl same ↦ let q : c ≡ c' = ground arith in rw (← q) (Accounts-preorder.stay c)
      | inr differs ↦ elim (Bool-cases (closed_application prior.status)) [
        | inl closed ↦ absurd (ground arith)
        | inr opened ↦
            let q : write_application prior status reason c ≡ c' = ground arith in
            let key_prior = key-find_row application_key k c.applications prior found in
            rw (← q) (
              Accounts-write_application prior status reason c
                (subst (λ j. find_row application_key j c.applications ≡ some prior) (sym key_prior)
                  found)
                opened)
      ]
    ]

-- Changing the state of an application accounts for the applications.
pub application_state-Accounts :
    (r : ℕ) (status : Status) (reason : String)
    → Relates Accounts (application_state r status reason)
unfolding application_state ◌>>=◌
application_state-Accounts r status reason = record {
  at = λ c c' u h.
      Accounts-preorder.chain c (ensure_application r c) c' (Accounts-ensure_application r c)
        (Accounts-change_application r _ status reason (ensure_application r c) c' u refl h);
}

-- A change of a closed application to another status or another reason fails with 409.
pub application_state-closed :
    (r : ℕ) (status : Status) (reason : String) (c : Case) (a : Application)
    → find_row application_key r c.applications ≡ some a
    → closed_application a.status ≡ true
    → (status_eq a.status status && str_eq a.reason reason) ≡ false
    → application_state r status reason c ≡ err (api_error 409 "该志愿已结束，不能覆盖历史结果")
unfolding application_state change_application ensure_application ◌>>=◌
application_state-closed r status reason c a found closed differs = ground arith
