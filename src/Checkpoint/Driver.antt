-- ===== src/Checkpoint/Driver.antt =====
-- src/checkpoint.ts: ProxyCheckpointer. The signed checkpoints come from outside, one for each call that
-- builds one, or none where buildHead returns null. A turn of the event loop is a step.
pub mod Shutdown
pub mod Numbers
pub mod Callbacks
pub mod Order
use chirindo.Prelude.{
  ℕ, zero, suc, ◌==◌, ◌%◌, Bool, true, false, not, ◌&&◌, ◌||◌, if◌then◌else◌, Option, none, some,
  List, [], ◌∷◌, ◌++◌, Text, codes, text_eq, is_some,
}
use chirindo.Json.{Json}
use chirindo.Record.{SignedCheckpoint}

-- A checkpoint object: `id` numbers the objects in the order of their building.
pub record Built : Type 0 where
  pub id : ℕ
  pub checkpoint : SignedCheckpoint

pub data LastState : Type 0 where
  pending ok failed : LastState

pub record Last : Type 0 where
  pub count : ℕ
  pub hash : Text
  pub state : LastState

-- WitnessOutcome; `upgrade` is the hint of a refusal.
pub record Recorded : Type 0 where
  pub receipt : Option Json
  pub error : Option Text
  pub upgrade : Option Text

pub record SidecarLine : Type 0 where
  pub checkpoint : Built
  pub witness_receipt : Option Json
  pub witness_error : Option Text

pub data Log : Type 0 where
  sidecar_write_failed : Log
  witness_failed : (count : ℕ) (error : Text) → Log
  upgrade_hint : (error : Text) (upgrade : Text) → Log

-- `immediates` are the callbacks that setImmediate holds, `jobs` those of the queue, of which the first
-- waits for its witness when `started`; `aborted` is the signal of `stop`.
pub record Checkpointer : Type 0 where
  pub next_id : ℕ
  pub last : Option Last
  pub scheduled : List Built
  pub inflight : List Built
  pub immediates : List Built
  pub jobs : List Built
  pub started : Bool
  pub closed : Bool
  pub aborted : Bool
  pub upgrade_hinted : Bool
  pub sidecar : List SidecarLine
  pub log : List Log

-- new ProxyCheckpointer
abbrev pub new_checkpointer : Checkpointer
new_checkpointer = record {
  next_id = 0;
  last = none;
  scheduled = [];
  inflight = [];
  immediates = [];
  jobs = [];
  started = false;
  closed = false;
  aborted = false;
  upgrade_hinted = false;
  sidecar = [];
  log = [];
}

-- delete of a set, and whether the object was in it
unfoldable pub delete : Built → List Built → List Built
delete b [] = []
delete b (x ∷ xs) = let rest = delete b xs in if x.id == b.id then xs else x ∷ rest

unfoldable pub has : Built → List Built → Bool
has b [] = false
has b (x ∷ xs) = (x.id == b.id) || has b xs

-- noteBuilt, of the object that buildHead made
unfoldable pub note_built : SignedCheckpoint → Checkpointer → Checkpointer
note_built cp c = record c {
  last =
      some
        (record { count = cp.content.count; hash = cp.content.last_entry_hash; state = pending });
}

-- every !== undefined && written % every === 0; the remainder by zero is no number.
abbrev pub is_due : (every : Option ℕ) → (written : ℕ) → Bool
is_due none written = false
is_due (some zero) written = false
is_due (some (suc n)) written = written % suc n == 0

-- afterReceipt, with what buildHead gives
unfoldable pub after_receipt :
    (every : Option ℕ) → (written : ℕ) → Option SignedCheckpoint → Checkpointer → Checkpointer
unfolding note_built
after_receipt every written none c = c
after_receipt every written (some cp) c =
    if is_due every written
    then record (note_built cp c) {
      next_id = suc c.next_id;
      scheduled = c.scheduled ++ record { id = c.next_id; checkpoint = cp } ∷ [];
      immediates = c.immediates ++ record { id = c.next_id; checkpoint = cp } ∷ [];
    }
    else c

-- enqueue
unfoldable pub enqueue : Built → Checkpointer → Checkpointer
enqueue b c = record c { inflight = c.inflight ++ b ∷ []; jobs = c.jobs ++ b ∷ [] }

-- The callback of setImmediate for `b`.
unfoldable pub on_immediate : Built → Checkpointer → Checkpointer
unfolding has delete enqueue
on_immediate b c =
    if has b c.scheduled then enqueue b (record c { scheduled = delete b c.scheduled }) else c

unfoldable pub fire_immediate : List Built → Checkpointer → Checkpointer
unfolding on_immediate
fire_immediate [] c = c
fire_immediate (b ∷ rest) c = on_immediate b (record c { immediates = rest })

abbrev pub same_head : SignedCheckpoint → Last → Bool
same_head cp l = l.count == cp.content.count && text_eq l.hash cp.content.last_entry_hash

abbrev state_of : (error : Option Text) → LastState
state_of none = ok
state_of (some error) = failed

-- The state of the last head, after `cp` is recorded with `error`.
unfoldable pub mark_last : SignedCheckpoint → (error : Option Text) → Option Last → Option Last
mark_last cp error none = none
mark_last cp error (some l) =
    if same_head cp l then some (record l { state = state_of error }) else some l

abbrev hint_lines : (error : Text) → (upgrade : Option Text) → (hinted : Bool) → List Log
hint_lines error (some upgrade) false = upgrade_hint error upgrade ∷ []
hint_lines error _ _ = []

-- The lines that a recorded error leaves in the log.
unfoldable pub error_log : SignedCheckpoint → Recorded → (hinted : Bool) → List Log
error_log cp outcome hinted = elim outcome.error [
  | none ↦ []
  | some error ↦ witness_failed cp.content.count error ∷ hint_lines error outcome.upgrade hinted
]

-- record, after the delete; `written` is whether the line was appended to the sidecar.
unfoldable pub record_line : Built → Recorded → (written : Bool) → Checkpointer → Checkpointer
unfolding mark_last error_log
record_line b outcome false c = record c { log = c.log ++ sidecar_write_failed ∷ [] }
record_line b outcome true c = record c {
  sidecar =
      c.sidecar
      ++ record { checkpoint = b; witness_receipt = outcome.receipt; witness_error = outcome.error }
        ∷ [];
  last = mark_last b.checkpoint outcome.error c.last;
  log = c.log ++ error_log b.checkpoint outcome c.upgrade_hinted;
  upgrade_hinted = c.upgrade_hinted || (is_some outcome.error && is_some outcome.upgrade);
}

-- record
unfoldable pub record_outcome : Built → Recorded → (written : Bool) → Checkpointer → Checkpointer
unfolding has delete record_line
record_outcome b outcome written c =
    if has b c.inflight
    then record_line b outcome written (record c { inflight = delete b c.inflight })
    else c

-- A job of the queue begins: it ends at once when the checkpointer is closed.
unfoldable pub start_job : List Built → Checkpointer → Checkpointer
start_job [] c = c
start_job (b ∷ rest) c =
    if c.started
    then c
    else if c.closed
    then record c { jobs = rest }
    else record c { started = true }

-- The witness answers the job that waits, or the request fails.
unfoldable pub finish_job : List Built → Recorded → (written : Bool) → Checkpointer → Checkpointer
unfolding record_outcome
finish_job [] outcome written c = c
finish_job (b ∷ rest) outcome written c =
    if not c.started
    then c
    else let done = record c { started = false; jobs = rest } in
      if c.closed then done else record_outcome b outcome written done

unfoldable pub enqueue_all : List Built → Checkpointer → Checkpointer
unfolding enqueue
enqueue_all [] c = c
enqueue_all (b ∷ bs) c = enqueue_all bs (enqueue b c)

abbrev not_failed : LastState → Bool
not_failed failed = false
not_failed _ = true

-- The head is pending or recorded with a receipt.
abbrev pub has_head : SignedCheckpoint → Option Last → Bool
has_head cp none = false
has_head cp (some l) = same_head cp l && not_failed l.state

-- shutdown, up to its wait
unfoldable pub shutdown_head : Option SignedCheckpoint → Checkpointer → Checkpointer
unfolding note_built enqueue
shutdown_head none c = c
shutdown_head (some cp) c =
    if has_head cp c.last
    then c
    else enqueue (record { id = c.next_id; checkpoint = cp })
        (record (note_built cp c) { next_id = suc c.next_id })

unfoldable pub begin_shutdown :
    (written : ℕ) → Option SignedCheckpoint → Checkpointer → Checkpointer
unfolding enqueue_all shutdown_head
begin_shutdown written head c =
    let queued = record (enqueue_all c.scheduled c) { scheduled = [] } in
    if written == 0 then queued else shutdown_head head queued

abbrev pub timed_out : Recorded
timed_out = record { receipt = none; error = some (codes "witness_timeout"); upgrade = none }

unfoldable pub record_all : (writes : ℕ → Bool) → List Built → Checkpointer → Checkpointer
unfolding record_outcome
record_all writes [] c = c
record_all writes (b ∷ bs) c = record_all writes bs (record_outcome b timed_out (writes b.id) c)

-- shutdown, from the end of its wait on: the queue is done, or the deadline is reached.
unfoldable pub end_shutdown : (writes : ℕ → Bool) → Checkpointer → Checkpointer
unfolding record_all
end_shutdown writes c = record_all writes c.inflight (record c { closed = true; aborted = true })

pub data Step : Type 0 where
  receipt_written : (written : ℕ) (head : Option SignedCheckpoint) → Step
  immediate job_starts : Step
  job_finishes : (outcome : Recorded) (written : Bool) → Step
  shutdown_begins : (written : ℕ) (head : Option SignedCheckpoint) → Step
  shutdown_ends : (writes : ℕ → Bool) → Step

unfoldable pub step : (every : Option ℕ) → Step → Checkpointer → Checkpointer
unfolding after_receipt fire_immediate start_job finish_job begin_shutdown end_shutdown
step every (receipt_written written head) c = after_receipt every written head c
step every immediate c = fire_immediate c.immediates c
step every job_starts c = start_job c.jobs c
step every (job_finishes outcome written) c = finish_job c.jobs outcome written c
step every (shutdown_begins written head) c = begin_shutdown written head c
step every (shutdown_ends writes) c = end_shutdown writes c

unfoldable pub run_steps : (every : Option ℕ) → List Step → Checkpointer → Checkpointer
unfolding step
run_steps every [] c = c
run_steps every (s ∷ steps) c = run_steps every steps (step every s c)
