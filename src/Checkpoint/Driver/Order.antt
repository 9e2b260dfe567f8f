-- ===== src/Checkpoint/Driver/Order.antt =====
-- The order in which ProxyCheckpointer records its checkpoints.
use mathlib.Core.Path.{subst}
use chirindo.Prelude.{
  ℕ, suc, ◌==◌, ◌≡◌, refl, sym, ap, ◌∙◌, Bool, true, false, Option, none, some, List, [], ◌∷◌, ◌++◌,
  arith, not,
}
use chirindo.Record.{SignedCheckpoint}
use chirindo.Record.File.Laws.{append_assoc, append_nil}
use chirindo.Checkpoint.Driver.Numbers.{Increasing, ids, line_ids, Increasing-upper}
use chirindo.Checkpoint.Driver.Shutdown.{record_outcome-first}
use chirindo.Checkpoint.Driver.{
  Built, Recorded, Checkpointer, new_checkpointer, note_built, has_head, enqueue, fire_immediate,
  record_line, start_job, finish_job, enqueue_all, shutdown_head, begin_shutdown, timed_out,
  record_all, end_shutdown, Step, receipt_written, immediate, job_starts, job_finishes,
  shutdown_begins, shutdown_ends, step, run_steps,
}
use chirindo.Checkpoint.Driver.Callbacks.{
  ids-newest, IsInOrder, IsOrdered, settled-IsOrdered, if-IsOrdered, after_receipt-IsOrdered,
  fire_dead-IsOrdered,
}

start_job-IsOrdered :
    (c : Checkpointer) (jobs : List Built) → IsOrdered c → IsOrdered (start_job jobs c)
unfolding start_job
start_job-IsOrdered c [] k = k
start_job-IsOrdered c (b ∷ rest) k =
    if-IsOrdered c.started c _ (λ t. k)
      (λ s.
        if-IsOrdered c.closed (record c { jobs = rest }) (record c { started = true })
          (λ t. record {
            numbered = k.numbered;
            dead = k.dead;
            callbacks = k.callbacks;
            aged = k.aged;
            queued = λ f. ground (arith, t, f);
          })
          (λ f. record {
            numbered = k.numbered;
            dead = k.dead;
            callbacks = k.callbacks;
            aged = k.aged;
            queued = k.queued;
          }))

finish_job-IsOrdered :
    (c : Checkpointer) (jobs : List Built) (outcome : Recorded) (written : Bool)
    → IsOrdered c
    → c.jobs ≡ jobs
    → IsOrdered (finish_job jobs outcome written c)
unfolding finish_job
finish_job-IsOrdered c [] outcome written k e = k
finish_job-IsOrdered c (b ∷ rest) outcome written k e =
    let done : Checkpointer = record c { started = false; jobs = rest } in
    if-IsOrdered (not c.started) c _ (λ t. k)
      (λ s.
        if-IsOrdered c.closed done _
          (λ t. record {
            numbered = k.numbered;
            dead = k.dead;
            callbacks = k.callbacks;
            aged = k.aged;
            queued = λ f. ground (arith, t, f);
          })
          (λ f.
            let first : c.inflight ≡ b ∷ rest = sym (k.queued f) ∙ e in
            subst IsOrdered (sym (record_outcome-first done b rest outcome written first))
              (settled-IsOrdered c b rest outcome written k first rest false (λ o. refl))))

enqueue_all-eq :
    (bs : List Built) (c : Checkpointer)
    → enqueue_all bs c ≡ record c { inflight = c.inflight ++ bs; jobs = c.jobs ++ bs }
unfolding enqueue_all enqueue
enqueue_all-eq [] c = rw (append_nil c.inflight, append_nil c.jobs) refl
enqueue_all-eq (b ∷ bs) c =
    enqueue_all-eq bs (enqueue b c)
    ∙ rw (append_assoc c.inflight (b ∷ []) bs, append_assoc c.jobs (b ∷ []) bs) refl

queued-IsOrdered :
    (c : Checkpointer)
    → IsOrdered c
    → IsOrdered (record (enqueue_all c.scheduled c) { scheduled = [] })
queued-IsOrdered c k =
    subst (λ (x : Checkpointer). IsOrdered (record x { scheduled = [] }))
      (sym (enqueue_all-eq c.scheduled c))
      (record {
        numbered =
            subst (λ l. Increasing 0 (line_ids c.sidecar ++ ids l) c.next_id)
              (sym (append_nil (c.inflight ++ c.scheduled))) k.numbered;
        dead = c.immediates;
        callbacks = sym (append_nil c.immediates);
        aged =
            subst (λ l. Increasing 0 (ids l) c.next_id)
              (sym k.callbacks ∙ sym (append_nil c.immediates)) k.aged;
        queued = λ o. ap (λ l. l ++ c.scheduled) (k.queued o);
      })

head-IsOrdered :
    (c : Checkpointer) (head : Option SignedCheckpoint)
    → IsOrdered c
    → c.scheduled ≡ []
    → IsOrdered (shutdown_head head c)
unfolding shutdown_head note_built enqueue
head-IsOrdered c none k e = k
head-IsOrdered c (some cp) k e =
    let b : Built = record { id = c.next_id; checkpoint = cp } in
    let alone : (l : List Built) → l ++ c.scheduled ≡ l = λ l. ap (λ m. l ++ m) e ∙ append_nil l in
    if-IsOrdered (has_head cp c.last) c _ (λ t. k)
      (λ f. record {
        numbered =
            subst (λ l. Increasing 0 (line_ids c.sidecar ++ ids l) (suc c.next_id))
              (sym (alone (c.inflight ++ b ∷ [])))
              (ids-newest (line_ids c.sidecar) c.inflight b (
                subst (λ l. Increasing 0 (line_ids c.sidecar ++ ids l) c.next_id) (alone c.inflight)
                  k.numbered));
        dead = k.dead;
        callbacks = k.callbacks;
        aged = Increasing-upper 0 c.next_id (ids (k.dead ++ c.scheduled)) k.aged;
        queued = λ o. ap (λ l. l ++ b ∷ []) (k.queued o);
      })

begin_shutdown-IsOrdered :
    (written : ℕ) (head : Option SignedCheckpoint) (c : Checkpointer)
    → IsOrdered c
    → IsOrdered (begin_shutdown written head c)
unfolding begin_shutdown
begin_shutdown-IsOrdered written head c k =
    let queued : Checkpointer = record (enqueue_all c.scheduled c) { scheduled = [] } in
    if-IsOrdered (written == 0) queued (shutdown_head head queued) (λ t. queued-IsOrdered c k)
      (λ f. head-IsOrdered queued head (queued-IsOrdered c k) refl)

record_line-kept :
    (b : Built) (outcome : Recorded) (written : Bool) (c : Checkpointer)
    → ((record_line b outcome written c).inflight ≡ c.inflight)
      × ((record_line b outcome written c).closed ≡ c.closed)
unfolding record_line
record_line-kept b outcome false c = (refl, refl)
record_line-kept b outcome true c = (refl, refl)

record_all-IsOrdered :
    (writes : ℕ → Bool) (bs : List Built) (c : Checkpointer)
    → IsOrdered c
    → c.inflight ≡ bs
    → c.closed ≡ true
    → IsOrdered (record_all writes bs c)
unfolding record_all
record_all-IsOrdered writes [] c k e closed = k
record_all-IsOrdered writes (b ∷ bs) c k e closed =
    let (rest, shut) = record_line-kept b timed_out (writes b.id) (record c { inflight = bs }) in
    subst (λ x. IsOrdered (record_all writes bs x))
      (sym (record_outcome-first c b bs timed_out (writes b.id) e))
      (record_all-IsOrdered writes bs
        (record_line b timed_out (writes b.id) (record c { inflight = bs }))
        (settled-IsOrdered c b bs timed_out (writes b.id) k e c.jobs c.started
          (λ f. ground (arith, closed, f)))
        rest (shut ∙ closed))

step-IsOrdered :
    (every : Option ℕ) (s : Step) (c : Checkpointer) → IsOrdered c → IsOrdered (step every s c)
unfolding step end_shutdown
step-IsOrdered every (receipt_written written head) c k =
    after_receipt-IsOrdered every written head c k
step-IsOrdered every immediate c k =
    subst (λ l. IsOrdered (fire_immediate l c)) (sym k.callbacks)
      (fire_dead-IsOrdered c k.dead k k.aged)
step-IsOrdered every job_starts c k = start_job-IsOrdered c c.jobs k
step-IsOrdered every (job_finishes outcome written) c k =
    finish_job-IsOrdered c c.jobs outcome written k refl
step-IsOrdered every (shutdown_begins written head) c k = begin_shutdown-IsOrdered written head c k
step-IsOrdered every (shutdown_ends writes) c k =
    record_all-IsOrdered writes c.inflight (record c { closed = true; aborted = true })
      (record {
        numbered = k.numbered;
        dead = k.dead;
        callbacks = k.callbacks;
        aged = k.aged;
        queued = λ f. ground (arith, f);
      })
      refl refl

run_steps-IsOrdered :
    (every : Option ℕ) (steps : List Step) (c : Checkpointer)
    → IsOrdered c
    → IsOrdered (run_steps every steps c)
unfolding run_steps
run_steps-IsOrdered every [] c k = k
run_steps-IsOrdered every (s ∷ steps) c k =
    run_steps-IsOrdered every steps (step every s c) (step-IsOrdered every s c k)

-- Over any run of a new checkpointer, in whatever order its callbacks, witnesses, writes and shutdown
-- come, the lines of the sidecar, the queue and what is scheduled are, one behind the other,
-- checkpoints in the order of their building: no checkpoint has two lines, and none comes after a
-- later one.
pub run_steps-IsInOrder :
    (every : Option ℕ) (steps : List Step) → IsInOrder (run_steps every steps new_checkpointer)
unfolding IsInOrder Increasing ids line_ids
run_steps-IsInOrder every steps =
    (run_steps-IsOrdered every steps new_checkpointer (record {
      numbered = omega arith;
      dead = [];
      callbacks = refl;
      aged = omega arith;
      queued = λ o. refl;
    })).numbered
