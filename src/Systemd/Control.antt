-- ===== src/Systemd/Control.antt =====
-- What `Control` and the controller of the transactions ask of the bus.
use avahi_manager.Prelude.{
  ◌≡◌, refl, ap, ◌∙◌, ◌⊎◌, inl, inr, Bool, true, false, List, [], ◌∷◌, ◌++◌, codes, same, Str,
  if◌then◌else◌, same_iff, arith,
}
use avahi_manager.Systemd.{
  accepted, UnitName, service_unit, socket_unit, JobKind, start_job, stop_job, restart_job,
  reload_job, Call, job_call, state_call, Bus, Outcome, succeeded, failed, ask, job, active,
  start_service, stop_rest, stop_units, control, apply, stop_again, Reply, job_result, unit_active,
  bus_error,
}
use avahi_manager.Config.Image.{Action, no_action, reload, restart}

job-calls : (k : JobKind) (u : UnitName) (b : Bus) → (job k u b).1.calls ≡ job_call k u ∷ b.calls
unfolding job ask
job-calls k u b = refl

-- the calls that have been made since
abbrev pub Since : List Call → Bus → Type 0
Since made b = (more : List Call) × (b.calls ≡ more ++ made)

stop_again-Since :
    (p : Bool × Bus) (c : Call) (made : List Call)
    → p.1.calls ≡ c ∷ made
    → Since made (stop_again p).1
unfolding job ask
stop_again-Since (true, b) c made h = (job_call stop_job service_unit ∷ c ∷ [], rw h refl)
stop_again-Since (false, b) c made h = (c ∷ [], h)

stop_rest-Since :
    (x y : Outcome) (b : Bus) (made : List Call) → b.calls ≡ made → Since made (stop_rest x y b).1
unfolding stop_rest active ask
stop_rest-Since succeeded succeeded b made h =
    stop_again-Since (active service_unit b) (state_call service_unit) made
      (ap (λ (cs : List Call). state_call service_unit ∷ cs) h)
stop_rest-Since succeeded failed b made h = ([], h)
stop_rest-Since failed y b made h = ([], h)

-- `Control("stop")` asks for the stop of the service and of the socket whatever the bus answers.
pub control-stop :
    (b : Bus)
    → Since
        (job_call stop_job socket_unit ∷ job_call stop_job service_unit ∷ b.calls)
        (control (codes "stop") b).1
unfolding control stop_units job ask same
control-stop b = stop_rest-Since _ _ _ _ refl

-- The next answer of the bus is that the job is done, and `rest` is behind it.
abbrev pub Answers : List Reply → List Reply → Type 0
Answers replies rest = replies ≡ job_result (codes "done") ∷ rest

abbrev pub Refuses : List Reply → Type 0
Refuses replies = (rest : List Reply) → Answers replies rest → ⊥

abbrev pub asked_socket : Bus → List Call
asked_socket b = job_call start_job socket_unit ∷ b.calls

abbrev pub asked_both : Bus → List Call
asked_both b = job_call start_job service_unit ∷ asked_socket b

-- what a start has asked for and what it was answered, by its outcome
abbrev pub Started : Bus → Outcome × Bus → Type 0
Started b (succeeded, b') =
    (b'.calls ≡ asked_both b)
    × (between : List Reply) × Answers b.replies between
    × Answers between b'.replies
Started b (failed, b') =
    ((b'.calls ≡ asked_socket b) × Refuses b.replies)
    ⊎ ((b'.calls ≡ asked_both b)
        × (between : List Reply) × Answers b.replies between
        × Refuses between)

-- one job: what it asks for, and whether the answer is that it is done
abbrev Jobs : JobKind → UnitName → Bus → Outcome × Bus → Type 0
Jobs k u b (succeeded, b') = (b'.calls ≡ job_call k u ∷ b.calls) × Answers b.replies b'.replies
Jobs k u b (failed, b') = (b'.calls ≡ job_call k u ∷ b.calls) × Refuses b.replies

Jobs-result :
    (k : JobKind) (u : UnitName) (calls : List Call) (s : Str) (rs : List Reply) (b : Bool)
    → same s (codes "done") ≡ b
    → Jobs k u
        (record { calls = calls; replies = job_result s ∷ rs })
        (if b then succeeded else failed, record { calls = job_call k u ∷ calls; replies = rs })
Jobs-result k u calls s rs true h =
    (refl, ap (λ (t : Str). job_result t ∷ rs) ((same_iff s (codes "done")).0 h))
Jobs-result k u calls s rs false h = (refl, λ rest e. not_done rest e)
  where
    named : Reply → Str
    named (job_result t) = t
    named _ = s

    first : List Reply → Str
    first [] = s
    first (r ∷ rs) = named r

    not_done : (rest : List Reply) → Answers (job_result s ∷ rs) rest → ⊥
    not_done rest e = apart ((same_iff s (codes "done")).1 (ap first e)) h
      where
        apart : {c : Bool} → c ≡ true → c ≡ false → ⊥
        apart h k = ground arith

job-Jobs : (k : JobKind) (u : UnitName) (b : Bus) → Jobs k u b (job k u b)
unfolding job ask
job-Jobs k u b = by_replies b.replies refl
  where
    by_replies : (rs : List Reply) → b.replies ≡ rs → Jobs k u b (job k u b)
    by_replies [] h = rw (h, job, ask) (refl, λ rest e. cc)
    by_replies (bus_error ∷ rs) h = rw (h, job, ask) (refl, λ rest e. cc)
    by_replies (unit_active a ∷ rs) h = rw (h, job, ask) (refl, λ rest e. cc)
    by_replies (accepted ∷ rs) h = rw (h, job, ask) (refl, λ rest e. cc)
    by_replies (job_result s ∷ rs) h =
        rw (h, job, ask) (Jobs-result k u b.calls s rs (same s (codes "done")) refl)

Started-by :
    (b mid : Bus) (p : Outcome × Bus)
    → mid.calls ≡ asked_socket b
    → Answers b.replies mid.replies
    → Jobs start_job service_unit mid p
    → Started b p
Started-by b mid (succeeded, b') h a (c, k) =
    (c ∙ ap (λ (cs : List Call). job_call start_job service_unit ∷ cs) h, mid.replies, a, k)
Started-by b mid (failed, b') h a (c, k) =
    inr (c ∙ ap (λ (cs : List Call). job_call start_job service_unit ∷ cs) h, mid.replies, a, k)

start_service-Started :
    (b : Bus) (p : Outcome × Bus) → Jobs start_job socket_unit b p → Started b (start_service p)
unfolding start_service
start_service-Started b (succeeded, mid) (c, a) =
    Started-by b mid (job start_job service_unit mid) c a (job-Jobs start_job service_unit mid)
start_service-Started b (failed, mid) (c, a) = inl (c, a)

-- `Control("start")` succeeds only where the bus has answered the jobs of the socket and then of
-- the service with "done". Otherwise the job of the socket was not answered so, and the service
-- was not asked for, or that of the socket was and that of the service, asked for behind it, was
-- not.
pub control-Started : (b : Bus) → Started b (control (codes "start") b)
unfolding control same
control-Started b =
    start_service-Started b (job start_job socket_unit b) (job-Jobs start_job socket_unit b)

-- what the controller asks for, by the action
abbrev pub asked_by : Action → List Call
asked_by no_action = []
asked_by reload = job_call reload_job service_unit ∷ []
asked_by restart = job_call restart_job service_unit ∷ []

-- The controller of a transaction asks for nothing where nothing changes, and else for the one
-- job of the service that the action names.
pub apply-calls : (a : Action) (b : Bus) → (apply a b).1.calls ≡ asked_by a ++ b.calls
unfolding apply control job ask same
apply-calls no_action b = refl
apply-calls reload b = refl
apply-calls restart b = refl
