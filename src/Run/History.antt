-- ===== src/Run/History.antt =====
-- The operations on the rows of a run, in any order, and what a request to cancel it means for them.
use resume_platform.Shared.{
  ℕ, ◌≡◌, refl, String, Bool, true, false, none, ok, arith, str_eq, any, List, [], ◌∷◌, All, Result,
  err, subst, ◌∙◌, task_error,
}
use resume_platform.Candidate.Transaction.{◌>>=◌}
use resume_platform.Candidate.Transaction.Triples.{
  Triple, Triple-pure, Triple-if, Triple-modify, Triple-refuse, Triple-gets, Triple-bind,
}
use resume_platform.Candidate.Case.{Case}
use resume_platform.Run.{terminal_item, item_outcome}
use resume_platform.Run.Progress.{
  Board, Item, with_outcome, begin_run, begin_row, finish_stage, write_outcome, is_set,
}
use resume_platform.Run.Rows.{All-update_where}
use resume_platform.Run.Summary.{
  Cause, stopped_item, summarize_run, cancel_run, stop_run, stop_claims, stopped_rows, summarized,
  with_cases, failure_info,
}

module _ (report : ℕ → ℕ → ℕ → ℕ → String) where
  -- One operation that commits. An item gets one of the five outcomes.
  pub data Step (b b' : Board) : Type 0 where
    begins : (step : String) (u : Unit {0}) → begin_run step b ≡ ok (u, b') → Step b b'
    opens : (step : String) (u : Unit {0}) → begin_row step b ≡ ok (u, b') → Step b b'
    finishes : (step : String) (u : Unit {0}) → finish_stage step b ≡ ok (u, b') → Step b b'
    decides :
        (id : ℕ) (status code message : String) (u : Unit {0})
        → terminal_item status ≡ true
        → write_outcome id status code message b ≡ ok (u, b')
        → Step b b'
    sums : (finish : Bool) (u : Unit {0}) → summarize_run report finish b ≡ ok (u, b') → Step b b'
    cancels : (user : ℕ) (u : Unit {0}) → cancel_run user b ≡ ok (u, b') → Step b b'
    stops : (cause : Cause) (u : Unit {0}) → stop_run report cause b ≡ ok (u, b') → Step b b'

  pub data History (b : Board) : Board → Type 0 where
    start : History b b
    next : {c d : Board} → History b c → Step c d → History b d

-- The statuses of a run that was asked to stop.
abbrev pub halting : String → Bool
halting s = any (str_eq s) ("cancelling" ∷ "cancelled" ∷ "failed" ∷ [])

-- A run that was asked to stop keeps to these, and the request is not lost; `P` holds of each item.
abbrev pub Halted : (Item → Type 0) → Bool → Board → Type 0
Halted P asked b =
    (asked ≡ true → is_set b.run.cancel_requested_at ≡ true)
    × (is_set b.run.cancel_requested_at ≡ true → halting b.run.status ≡ true)
    × All P b.items

-- What an outcome and the end of a run do to an item.
pub record IsKept (P : Item → Type 0) : Type 0 where
  pub outcome :
      (now : ℕ) (status code message : String) (i : Item)
      → terminal_item status ≡ true
      → P (with_outcome now (item_outcome status code message) i)
  pub stopped :
      (cancelled : Bool) (code message : String) (now : ℕ) (i : Item)
      → P (stopped_item cancelled code message now i)

module _ {P : Item → Type 0} (kept : IsKept P) (asked : Bool) where
  begin_run-Halted :
      (step : String) → Triple (Halted P asked) (begin_run step) (λ _. Halted P asked)
  unfolding begin_run
  begin_run-Halted step = Triple-bind _ _ (Triple-gets _) λ set.
      Triple-bind _ _ (Triple-refuse set _)
        λ _. Triple-modify _ λ b p. (p.0.0.0, (λ h. absurd (ground arith)), p.0.0.2)

  begin_row-Halted :
      (step : String) → Triple (Halted P asked) (begin_row step) (λ _. Halted P asked)
  unfolding begin_row
  begin_row-Halted step = Triple-modify _ λ b p. p

  finish_stage-Halted :
      (step : String) → Triple (Halted P asked) (finish_stage step) (λ _. Halted P asked)
  unfolding finish_stage
  finish_stage-Halted step = Triple-modify _ λ b p. p

  write_outcome-Halted :
      (id : ℕ) (status code message : String)
      → terminal_item status ≡ true
      → Triple (Halted P asked) (write_outcome id status code message) (λ _. Halted P asked)
  unfolding write_outcome
  write_outcome-Halted id status code message h = Triple-modify _ λ b p. (
    p.0,
    p.1,
    All-update_where P _ _ b.items (λ i q. kept.outcome b.now status code message i h) p.2,
  )

  cancel_run-Halted : (user : ℕ) → Triple (Halted P asked) (cancel_run user) (λ _. Halted P asked)
  unfolding cancel_run
  cancel_run-Halted user = Triple-bind _ _ (Triple-gets _) λ active.
      Triple-bind _ _ (Triple-refuse _ _) λ _. Triple-bind _ _ (Triple-gets _) λ set.
        Triple-if set _ _ (λ e. Triple-pure tt λ b p. p.0.0.0)
          λ e. Triple-modify _ λ b p. ((λ h. refl), (λ h. refl), p.0.0.0.2)

  module _ (report : ℕ → ℕ → ℕ → ℕ → String) where
    summarized-Halted :
        (finish : Bool) (b : Board)
        → Halted P asked b
        → (finish ≡ true → is_set b.run.cancel_requested_at ≡ false)
        → Halted P asked (summarized report finish b)
    summarized-Halted true b p q = (p.0, (λ h. absurd (let e = q refl in cc)), p.2)
    summarized-Halted false b p q = p

    summarize_run-Halted :
        (finish : Bool)
        → Triple (Halted P asked) (summarize_run report finish) (λ _. Halted P asked)
    unfolding summarize_run
    summarize_run-Halted finish = Triple-bind _ _ (Triple-gets _) λ set.
        Triple-bind _ _ (Triple-refuse _ _)
          λ _. Triple-modify _ λ b p. summarized-Halted finish b p.0.0 λ e. ground arith

    stopped_rows-Halted :
        (cancelled : Bool) (code message : String) (b : Board)
        → Halted P asked b
        → Halted P asked (stopped_rows cancelled code message b)
    stopped_rows-Halted true code message b p = (
      p.0,
      (λ h. refl),
      All-update_where P _ _ b.items (λ i q. kept.stopped true code message b.now i) p.2,
    )
    stopped_rows-Halted false code message b p = (
      p.0,
      (λ h. refl),
      All-update_where P _ _ b.items (λ i q. kept.stopped false code message b.now i) p.2,
    )

    with_cases-Halted :
        (b b' : Board) (r : Result (Unit {0} × List Case)) (u : Unit {0})
        → Halted P asked b
        → with_cases b r ≡ ok (u, b')
        → Halted P asked b'
    with_cases-Halted b b' (err e) u p h = absurd (cc)
    with_cases-Halted b b' (ok (_, cs)) u p h =
        let e : record b { cases = cs } ≡ b' = cc in subst (Halted P asked) e p

    stop_claims-Halted :
        (message : String) → Triple (Halted P asked) (stop_claims message) (λ _. Halted P asked)
    unfolding stop_claims
    stop_claims-Halted message = record { at = λ b b' u p h. with_cases-Halted b b' _ u p h }

    stop_run-Halted :
        (cause : Cause) → Triple (Halted P asked) (stop_run report cause) (λ _. Halted P asked)
    unfolding stop_run
    stop_run-Halted cause =
        Triple-bind _ _
          (Triple-modify _ (λ b.
            stopped_rows-Halted (str_eq (failure_info cause).0 "agent_cancelled")
              (failure_info cause).0 (failure_info cause).1 b))
          λ _. Triple-bind _ _ (stop_claims-Halted _) λ _. summarize_run-Halted false

    Step-Halted : (b b' : Board) → Halted P asked b → Step report b b' → Halted P asked b'
    Step-Halted b b' p (begins step u h) = (begin_run-Halted step).at b b' u p h
    Step-Halted b b' p (opens step u h) = (begin_row-Halted step).at b b' u p h
    Step-Halted b b' p (finishes step u h) = (finish_stage-Halted step).at b b' u p h
    Step-Halted b b' p (decides id status code message u q h) =
        (write_outcome-Halted id status code message q).at b b' u p h
    Step-Halted b b' p (sums finish u h) = (summarize_run-Halted finish).at b b' u p h
    Step-Halted b b' p (cancels user u h) = (cancel_run-Halted user).at b b' u p h
    Step-Halted b b' p (stops cause u h) = (stop_run-Halted cause).at b b' u p h

    pub History-Halted : {b b' : Board} → Halted P asked b → History report b b' → Halted P asked b'
    History-Halted p start = p
    History-Halted p (next {c} {d} h step) = Step-Halted c d (History-Halted p h) step

anything : IsKept (λ _. Unit {0})
anything = record {
  outcome = λ now status code message i h. tt;
  stopped = λ cancelled code message now i. tt;
}

All-Unit : (is : List Item) → All (λ _. Unit {0}) is
All-Unit [] = tt
All-Unit (i ∷ is) = (tt, All-Unit is)

cancel_run-asked :
    (user : ℕ)
    → Triple (λ _. Unit {0}) (cancel_run user) (λ _ b. is_set b.run.cancel_requested_at ≡ true)
unfolding cancel_run
cancel_run-asked user = Triple-bind _ _ (Triple-gets _) λ active.
    Triple-bind _ _ (Triple-refuse _ _) λ _. Triple-bind _ _ (Triple-gets _) λ asked.
      Triple-if asked _ _ (λ e. Triple-pure tt λ b p. p.1 ∙ e) λ e. Triple-modify _ λ b p. refl

begin_run-asked :
    (step : String) (b : Board)
    → is_set b.run.cancel_requested_at ≡ true
    → begin_run step b ≡ err (task_error "agent_cancelled" "任务已取消")
unfolding begin_run ◌>>=◌
begin_run-asked step b h = rw h refl

module _ (report : ℕ → ℕ → ℕ → ℕ → String) where
  summarize_run-asked :
      (b : Board)
      → is_set b.run.cancel_requested_at ≡ true
      → summarize_run report true b ≡ err (task_error "agent_cancelled" "任务已取消")
  unfolding summarize_run ◌>>=◌
  summarize_run-asked b h = rw h refl

  -- Once a request to cancel a run is accepted, then after any further operations the run is
  -- `cancelling`, `cancelled` or `failed`, no stage of it can begin, and it cannot be summed up as
  -- finished. The run starts without such a request.
  pub cancel_run-halts :
      {b₀ b c d : Board} (user : ℕ) (u : Unit {0})
      → b₀.run.cancel_requested_at ≡ none
      → History report b₀ b
      → cancel_run user b ≡ ok (u, c)
      → History report c d
      → (halting d.run.status ≡ true)
        × ((step : String) → begin_run step d ≡ err (task_error "agent_cancelled" "任务已取消"))
        × (summarize_run report true d ≡ err (task_error "agent_cancelled" "任务已取消"))
  cancel_run-halts {b₀} {b} {c} {d} user u free before h after =
      let fresh : is_set b₀.run.cancel_requested_at ≡ false = rw free refl in
      let at_b =
        History-Halted anything false report
          ((λ e. absurd (cc)), (λ e. absurd (cc)), All-Unit b₀.items) before in
      let at_c = (cancel_run-Halted anything false user).at b c u at_b h in
      let asked = (cancel_run-asked user).at b c u tt h in
      let at_d = History-Halted anything true report ((λ _. asked), at_c.1, at_c.2) after in
      let kept = at_d.0 refl in
      (at_d.1 kept, λ step. begin_run-asked step d kept, summarize_run-asked d kept)
