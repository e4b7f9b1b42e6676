-- ===== src/Database/Jobs.antt =====
-- A job that has ended stays as it is, whatever is done to the table.
use avahi_manager.Prelude.{
  ℕ, ◌≡◌, refl, sym, ap, ◌∙◌, subst, Bool, true, false, ◌&&◌, Option, none, some, [], ◌∷◌, arith,
  Str, same, same_iff, Map, get, All, leb, if◌then◌else◌, get-put, if_lem,
}
use avahi_manager.Database.{
  Job, JobState, is_live, create_job, insert_job, update_job, update_row, interrupt_jobs,
  interrupt_rows, interrupted_job,
}

-- what the program can do to the table of jobs
pub data Steps : Map Job → Map Job → Type 0 where
  stay : (jobs : Map Job) → Steps jobs jobs
  create :
      (db_ok : Bool) (now : ℕ) (id kind : Str) (jobs later : Map Job)
      → Steps (create_job db_ok now id kind jobs).1 later
      → Steps jobs later
  update :
      (db_ok : Bool) (now : ℕ) (id : Str) (s : JobState) (progress : ℕ) (result : Str)
      (jobs later : Map Job)
      → Steps (update_job db_ok now id s progress result jobs).1 later
      → Steps jobs later
  interrupt :
      (db_ok : Bool) (now : ℕ) (jobs later : Map Job)
      → Steps (interrupt_jobs db_ok now jobs).1 later
      → Steps jobs later

-- under an identifier there is a job that has ended
abbrev Ended : Str → Job → Map Job → Type 0
Ended id j jobs = (get id jobs ≡ some j) × (is_live j.state ≡ false)

Ended-insert :
    (now : ℕ) (k kind id : Str) (j : Job) (o : Option Job) (jobs : Map Job)
    → get k jobs ≡ o
    → Ended id j jobs
    → get id (insert_job now k kind o jobs).1 ≡ some j
unfolding insert_job
Ended-insert now k kind id j (some x) jobs g (h, e) = h
Ended-insert now k kind id j none jobs g (h, e) = rw get-put (ground (arith, same_iff k id, g, h))

Ended-update :
    (now : ℕ) (k : Str) (s : JobState) (progress : ℕ) (result id : Str) (j : Job) (o : Option Job)
    (jobs : Map Job)
    → get k jobs ≡ o
    → Ended id j jobs
    → get id (update_row now k s progress result o jobs).1 ≡ some j
unfolding update_row
Ended-update now k s progress result id j none jobs g (h, e) = h
Ended-update now k s progress result id j (some x) jobs g (h, e) =
    if_lem (λ (r : Bool × Map Job). get id r.1 ≡ some j) (is_live x.state && leb progress 100) _ _
      (λ b. rw get-put (ground (arith, same_iff k id, g, h, e))) (λ b. h)

interrupted_job-ended : (now : ℕ) (x : Job) → is_live x.state ≡ false → interrupted_job now x ≡ x
interrupted_job-ended now x h = rw h refl

get-interrupt_rows :
    (now : ℕ) (id : Str) (j : Job) (jobs : Map Job)
    → Ended id j jobs
    → get id (interrupt_rows now jobs) ≡ some j
unfolding interrupt_rows get
get-interrupt_rows now id j [] (h, e) = cc
get-interrupt_rows now id j ((k, x) ∷ jobs) (h, e) =
    head_or_tail (same k id) (get-interrupt_rows now id j jobs) h
  where
    head_or_tail :
        (b : Bool)
        → (Ended id j jobs → get id (interrupt_rows now jobs) ≡ some j)
        → (if b then some x else get id jobs) ≡ some j
        → (if b then some (interrupted_job now x) else get id (interrupt_rows now jobs)) ≡ some j
    head_or_tail true k h =
        let q : x ≡ j = cc in
        ap some
          (interrupted_job-ended now x (subst (λ (y : Job). is_live y.state ≡ false) (sym q) e) ∙ q)
    head_or_tail false k h = k (h, e)

Ended-create :
    (db_ok : Bool) (now : ℕ) (k kind id : Str) (j : Job) (jobs : Map Job)
    → Ended id j jobs
    → get id (create_job db_ok now k kind jobs).1 ≡ some j
unfolding create_job
Ended-create true now k kind id j jobs h = Ended-insert now k kind id j (get k jobs) jobs refl h
Ended-create false now k kind id j jobs h = h.0

Ended-update_job :
    (db_ok : Bool) (now : ℕ) (k : Str) (s : JobState) (progress : ℕ) (result id : Str) (j : Job)
    (jobs : Map Job)
    → Ended id j jobs
    → get id (update_job db_ok now k s progress result jobs).1 ≡ some j
unfolding update_job
Ended-update_job true now k s progress result id j jobs h =
    Ended-update now k s progress result id j (get k jobs) jobs refl h
Ended-update_job false now k s progress result id j jobs h = h.0

Ended-interrupt :
    (db_ok : Bool) (now : ℕ) (id : Str) (j : Job) (jobs : Map Job)
    → Ended id j jobs
    → get id (interrupt_jobs db_ok now jobs).1 ≡ some j
unfolding interrupt_jobs
Ended-interrupt true now id j jobs h = get-interrupt_rows now id j jobs h
Ended-interrupt false now id j jobs h = h.0

-- A job that has succeeded, failed or been interrupted is found unchanged after any number of
-- calls of `CreateJob`, `UpdateJob` and `InterruptJobs`, whether the database fails or not.
pub Steps-ended :
    (id : Str) (j : Job) (jobs later : Map Job)
    → Steps jobs later
    → get id jobs ≡ some j
    → is_live j.state ≡ false
    → get id later ≡ some j
Steps-ended id j jobs later (stay _) h e = h
Steps-ended id j jobs later (create db_ok now k kind _ _ s) h e =
    Steps-ended id j _ later s (Ended-create db_ok now k kind id j jobs (h, e)) e
Steps-ended id j jobs later (update db_ok now k t progress result _ _ s) h e =
    Steps-ended id j _ later s (Ended-update_job db_ok now k t progress result id j jobs (h, e)) e
Steps-ended id j jobs later (interrupt db_ok now _ _ s) h e =
    Steps-ended id j _ later s (Ended-interrupt db_ok now id j jobs (h, e)) e

-- After an `InterruptJobs` that succeeds no job is queued or running.
pub interrupt_jobs-All :
    (now : ℕ) (jobs : Map Job)
    → All (λ (e : Str × Job). is_live e.1.state ≡ false) (interrupt_jobs true now jobs).1
unfolding interrupt_jobs interrupt_rows
interrupt_jobs-All now [] = tt
interrupt_jobs-All now ((k, j) ∷ jobs) = (
  if_lem (λ (x : Job). is_live x.state ≡ false) (is_live j.state) _ _ (λ b. refl) (λ b. b),
  interrupt_jobs-All now jobs,
)
