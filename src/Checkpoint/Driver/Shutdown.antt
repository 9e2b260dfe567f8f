-- ===== src/Checkpoint/Driver/Shutdown.antt =====
-- What the end of the shutdown of ProxyCheckpointer writes.
use mathlib.Core.Path.{subst}
use chirindo.Prelude.{
  ℕ, ◌≡◌, refl, sym, ◌∙◌, Bool, true, if◌then◌else◌, none, some, List, [], ◌∷◌, ◌++◌, codes, arith,
  Bool-cases, inl, inr,
}
use chirindo.Record.File.Laws.{append_assoc, append_nil}
use chirindo.Checkpoint.Driver.{
  Built, Recorded, SidecarLine, Checkpointer, delete, has, record_line, record_outcome, timed_out,
  record_all, end_shutdown,
}

pub has-first : (b : Built) (bs : List Built) → has b (b ∷ bs) ≡ true
unfolding has
has-first b bs = ground arith

pub delete-first : (b : Built) (bs : List Built) → delete b (b ∷ bs) ≡ bs
unfolding delete
delete-first b bs = ground arith

-- The lines of the objects whose write goes through.
unfoldable pub gap_lines : (writes : ℕ → Bool) → List Built → List SidecarLine
gap_lines writes [] = []
gap_lines writes (b ∷ bs) =
    let rest = gap_lines writes bs in
    if writes b.id
    then record {
      checkpoint = b;
      witness_receipt = none;
      witness_error = some (codes "witness_timeout");
    }
      ∷ rest
    else rest

pub record_outcome-first :
    (c : Checkpointer) (b : Built) (bs : List Built) (outcome : Recorded) (written : Bool)
    → c.inflight ≡ b ∷ bs
    → record_outcome b outcome written c
      ≡ record_line b outcome written (record c { inflight = bs })
unfolding record_outcome
record_outcome-first c b bs outcome written e = rw (e, has-first b bs, delete-first b bs) refl

record_line-lines :
    (c : Checkpointer) (b : Built) (bs : List Built) (writes : ℕ → Bool)
    → ((record_line b timed_out (writes b.id) c).sidecar ++ gap_lines writes bs
        ≡ c.sidecar ++ gap_lines writes (b ∷ bs))
      × ((record_line b timed_out (writes b.id) c).inflight ≡ c.inflight)
unfolding record_line gap_lines
record_line-lines c b bs writes = elim (Bool-cases (writes b.id)) [
  | inl t ↦ rw t (append_assoc c.sidecar _ (gap_lines writes bs), refl)
  | inr f ↦ rw f (refl, refl)
]

record_all-lines :
    (writes : ℕ → Bool) (bs : List Built) (c : Checkpointer)
    → c.inflight ≡ bs
    → ((record_all writes bs c).sidecar ≡ c.sidecar ++ gap_lines writes bs)
      × ((record_all writes bs c).inflight ≡ [])
unfolding record_all gap_lines
record_all-lines writes [] c e = (sym (append_nil c.sidecar), e)
record_all-lines writes (b ∷ bs) c e =
    let cut = record c { inflight = bs } in
    let (lines, kept) = record_line-lines cut b bs writes in
    let (rest, empty) =
      record_all-lines writes bs (record_line b timed_out (writes b.id) cut) kept in
    subst
      (λ x.
        ((record_all writes bs x).sidecar ≡ c.sidecar ++ gap_lines writes (b ∷ bs))
        × ((record_all writes bs x).inflight ≡ []))
      (sym (record_outcome-first c b bs timed_out (writes b.id) e)) (rest ∙ lines, empty)

-- When the wait of the shutdown ends, each checkpoint that is queued and not recorded gets its own line
-- with the error witness_timeout, in the order of the queue, where its write goes through; none is left
-- to be recorded later.
pub end_shutdown-lines :
    (writes : ℕ → Bool) (c : Checkpointer)
    → ((end_shutdown writes c).sidecar ≡ c.sidecar ++ gap_lines writes c.inflight)
      × ((end_shutdown writes c).inflight ≡ [])
unfolding end_shutdown
end_shutdown-lines writes c =
    record_all-lines writes c.inflight (record c { closed = true; aborted = true }) refl
