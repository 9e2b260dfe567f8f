-- ===== src/Checkpoint/Driver/Callbacks.antt =====
-- The invariant behind the order of the checkpoints of ProxyCheckpointer, and its callbacks.
use mathlib.Core.Path.{subst}
use chirindo.Prelude.{
  ℕ, suc, ◌≡◌, refl, sym, ap, ◌∙◌, Bool, true, false, Option, none, some, List, [], ◌∷◌, ◌++◌,
  arith, if◌then◌else◌,
}
use chirindo.Record.{SignedCheckpoint}
use chirindo.Record.File.Laws.{append_assoc}
use chirindo.Checkpoint.Driver.Numbers.{
  Increasing, ids, line_ids, Increasing-lower, Increasing-next, Increasing-delete,
  Increasing-prefix, ids-append, line_ids-append, has-older,
}
use chirindo.Checkpoint.Driver.Shutdown.{has-first, delete-first}
use chirindo.Checkpoint.Driver.{
  Built, Recorded, Checkpointer, has, note_built, is_due, after_receipt, enqueue, on_immediate,
  fire_immediate, record_line,
}

-- The lines of the sidecar, then the queue, then what is scheduled: objects in the order of building.
unfoldable pub IsInOrder : Checkpointer → Type 0
IsInOrder c = Increasing 0 (line_ids c.sidecar ++ ids (c.inflight ++ c.scheduled)) c.next_id

-- What is recorded, queued and scheduled, in this order, are objects in the order of their building;
-- the callbacks are those of the scheduled ones behind `dead` ones; the jobs are those of the queue.
pub record IsOrdered (c : Checkpointer) : Type 0 where
  pub numbered : Increasing 0 (line_ids c.sidecar ++ ids (c.inflight ++ c.scheduled)) c.next_id
  pub dead : List Built
  pub callbacks : c.immediates ≡ dead ++ c.scheduled
  pub aged : Increasing 0 (ids (dead ++ c.scheduled)) c.next_id
  pub queued : c.closed ≡ false → c.jobs ≡ c.inflight

pub ids-newest :
    (ns : List ℕ) (bs : List Built) (b : Built)
    → Increasing 0 (ns ++ ids bs) b.id
    → Increasing 0 (ns ++ ids (bs ++ b ∷ [])) (suc b.id)
unfolding ids
ids-newest ns bs b h =
    subst (λ l. Increasing 0 l (suc b.id))
      (append_assoc ns (ids bs) (b.id ∷ []) ∙ ap (λ l. ns ++ l) (sym (ids-append bs (b ∷ []))))
      (Increasing-next 0 b.id (ns ++ ids bs) h)

scheduled-IsOrdered :
    (c : Checkpointer) (cp : SignedCheckpoint)
    → IsOrdered c
    → IsOrdered (record (note_built cp c) {
      next_id = suc c.next_id;
      scheduled = c.scheduled ++ record { id = c.next_id; checkpoint = cp } ∷ [];
      immediates = c.immediates ++ record { id = c.next_id; checkpoint = cp } ∷ [];
    })
unfolding note_built
scheduled-IsOrdered c cp k =
    let b : Built = record { id = c.next_id; checkpoint = cp } in
    record {
      numbered =
          subst (λ l. Increasing 0 (line_ids c.sidecar ++ ids l) (suc c.next_id))
            (append_assoc c.inflight c.scheduled (b ∷ []))
            (ids-newest (line_ids c.sidecar) (c.inflight ++ c.scheduled) b k.numbered);
      dead = k.dead;
      callbacks = ap (λ l. l ++ b ∷ []) k.callbacks ∙ append_assoc k.dead c.scheduled (b ∷ []);
      aged =
          subst (λ l. Increasing 0 (ids l) (suc c.next_id))
            (append_assoc k.dead c.scheduled (b ∷ []))
            (ids-newest [] (k.dead ++ c.scheduled) b k.aged);
      queued = k.queued;
    }

-- The first of the queue leaves it, recorded or not.
pub settled-IsOrdered :
    (c : Checkpointer) (b : Built) (rest : List Built) (outcome : Recorded) (written : Bool)
    → IsOrdered c
    → c.inflight ≡ b ∷ rest
    → (jobs : List Built) (started : Bool) → (c.closed ≡ false → jobs ≡ rest)
    → IsOrdered (
        record_line b outcome written
          (record c { inflight = rest; jobs = jobs; started = started }))
unfolding record_line ids
settled-IsOrdered c b rest outcome false k e jobs started q = record {
  numbered =
      subst (λ l. Increasing 0 l c.next_id) refl
        (Increasing-delete 0 c.next_id b.id (line_ids c.sidecar) (ids (rest ++ c.scheduled)) (
          subst (λ l. Increasing 0 (line_ids c.sidecar ++ ids (l ++ c.scheduled)) c.next_id) e
            k.numbered));
  dead = k.dead;
  callbacks = k.callbacks;
  aged = k.aged;
  queued = q;
}
settled-IsOrdered c b rest outcome true k e jobs started q = record {
  numbered =
      subst (λ l. Increasing 0 l c.next_id)
        (sym (append_assoc (line_ids c.sidecar) (b.id ∷ []) (ids (rest ++ c.scheduled)))
          ∙ ap (λ l. l ++ ids (rest ++ c.scheduled)) (sym (line_ids-append c.sidecar _)))
        (subst (λ l. Increasing 0 (line_ids c.sidecar ++ ids (l ++ c.scheduled)) c.next_id) e
          k.numbered);
  dead = k.dead;
  callbacks = k.callbacks;
  aged = k.aged;
  queued = q;
}

pub if-IsOrdered :
    (b : Bool) (c d : Checkpointer)
    → (b ≡ true → IsOrdered c)
    → (b ≡ false → IsOrdered d)
    → IsOrdered (if b then c else d)
if-IsOrdered true c d left right = left refl
if-IsOrdered false c d left right = right refl

pub after_receipt-IsOrdered :
    (every : Option ℕ) (written : ℕ) (head : Option SignedCheckpoint) (c : Checkpointer)
    → IsOrdered c
    → IsOrdered (after_receipt every written head c)
unfolding after_receipt
after_receipt-IsOrdered every written none c k = k
after_receipt-IsOrdered every written (some cp) c k =
    if-IsOrdered (is_due every written) _ c (λ t. scheduled-IsOrdered c cp k) (λ f. k)

on_immediate-first :
    (c : Checkpointer) (b : Built) (rest : List Built)
    → c.scheduled ≡ b ∷ rest
    → on_immediate b c ≡ enqueue b (record c { scheduled = rest })
unfolding on_immediate
on_immediate-first c b rest e = rw (e, has-first b rest, delete-first b rest) refl

fire_scheduled-IsOrdered :
    (c : Checkpointer) (bs : List Built)
    → IsOrdered c
    → c.scheduled ≡ bs
    → IsOrdered (fire_immediate bs c)
unfolding fire_immediate ids Increasing enqueue
fire_scheduled-IsOrdered c [] k e = k
fire_scheduled-IsOrdered c (b ∷ rest) k e =
    let aged : Increasing 0 (ids (b ∷ rest)) c.next_id =
      subst (λ l. Increasing 0 (ids l) c.next_id) e
        (Increasing-prefix 0 c.next_id (ids k.dead) (ids c.scheduled)
          (subst (λ l. Increasing 0 l c.next_id) (ids-append k.dead c.scheduled) k.aged)) in
    subst IsOrdered (sym (on_immediate-first (record c { immediates = rest }) b rest e)) (record {
      numbered =
          subst (λ l. Increasing 0 (line_ids c.sidecar ++ ids l) c.next_id)
            (ap (λ l. c.inflight ++ l) e ∙ sym (append_assoc c.inflight (b ∷ []) rest)) k.numbered;
      dead = [];
      callbacks = refl;
      aged = Increasing-delete 0 c.next_id b.id [] (ids rest) aged;
      queued = λ o. ap (λ l. l ++ b ∷ []) (k.queued o);
    })

pub fire_dead-IsOrdered :
    (c : Checkpointer) (dead : List Built)
    → IsOrdered c
    → Increasing 0 (ids (dead ++ c.scheduled)) c.next_id
    → IsOrdered (fire_immediate (dead ++ c.scheduled) c)
unfolding fire_immediate on_immediate ids Increasing
fire_dead-IsOrdered c [] k aged = fire_scheduled-IsOrdered c c.scheduled k refl
fire_dead-IsOrdered c (d ∷ ds) k (first, later) =
    let after : Increasing (suc d.id) (ids c.scheduled) c.next_id =
      Increasing-prefix (suc d.id) c.next_id (ids ds) (ids c.scheduled)
        (subst (λ l. Increasing (suc d.id) l c.next_id) (ids-append ds c.scheduled) later) in
    let gone = has-older d (suc d.id) c.next_id c.scheduled (omega arith) after in
    if-IsOrdered (has d c.scheduled) _ (record c { immediates = ds ++ c.scheduled })
      (λ t. ground (arith, t, gone))
      (λ f. record {
        numbered = k.numbered;
        dead = ds;
        callbacks = refl;
        aged =
            Increasing-lower 0 (suc d.id) c.next_id (ids (ds ++ c.scheduled)) (omega arith) later;
        queued = k.queued;
      })
