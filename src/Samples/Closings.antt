-- ===== src/Samples/Closings.antt =====
-- The theorems on the checkpoints of a gate at a chain of one receipt.
use chirindo.Prelude.{text_eq, ◌≡◌, refl, true, none, some, List, [], ◌∷◌, ◌++◌, codes, length}
use chirindo.Json.{get}
use chirindo.Chain.{pushed}
use chirindo.Record.Canon.{content_json, checkpoint_json}
use chirindo.Record.Hash.{genesis_prev_hash, rfc7638_thumbprint}
use chirindo.Receipt.{prev_hash_of}
use chirindo.Checkpoint.{build_checkpoint, build_checkpoint_from_head}
use chirindo.Checkpoint.Head.{head_after, build_checkpoint-eq-from_head}
use chirindo.Checkpoint.Driver.{
  Checkpointer, new_checkpointer, end_shutdown, run_steps, Step, receipt_written, immediate,
  job_starts, job_finishes, shutdown_begins, shutdown_ends,
}
use chirindo.Checkpoint.Driver.Callbacks.{IsInOrder}
use chirindo.Checkpoint.Driver.Order.{run_steps-IsInOrder}
use chirindo.Checkpoint.Driver.Shutdown.{gap_lines, end_shutdown-lines}
use chirindo.Samples.{crypto, agent, identity, receipt}
use chirindo.Samples.Memory.{closing}

closing_built : build_checkpoint crypto agent identity (receipt ∷ []) (codes "t") ≡ some closing
unfolding build_checkpoint genesis_prev_hash rfc7638_thumbprint pushed content_json checkpoint_json
    get text_eq
closing_built = refl

build_checkpoint-eq-from_head_example :
    (1 ≡ length (receipt ∷ []))
    × (prev_hash_of crypto (codes "s") (receipt ∷ []) ≡ some closing.content.last_entry_hash)
    × (build_checkpoint_from_head crypto agent identity
          (head_after crypto agent identity receipt [] closing.content.last_entry_hash)
          (codes "t")
        ≡ some closing)
build_checkpoint-eq-from_head_example =
    build_checkpoint-eq-from_head crypto agent identity receipt [] (codes "t") closing refl
      closing_built

abbrev waiting : Checkpointer
waiting = record new_checkpointer {
  next_id = 2;
  inflight = record { id = 0; checkpoint = closing } ∷ record { id = 1; checkpoint = closing } ∷ [];
}

end_shutdown-lines_example :
    ((end_shutdown (λ n. true) waiting).sidecar
      ≡ waiting.sidecar ++ gap_lines (λ n. true) waiting.inflight)
    × ((end_shutdown (λ n. true) waiting).inflight ≡ [])
end_shutdown-lines_example = end_shutdown-lines (λ n. true) waiting

abbrev day : List Step
day =
    receipt_written 1 (some closing)
    ∷ receipt_written 2 (some closing)
    ∷ immediate
    ∷ job_starts
    ∷ job_finishes (record { receipt = none; error = none; upgrade = none }) true
    ∷ shutdown_begins 2 (some closing)
    ∷ shutdown_ends (λ n. true)
    ∷ []

run_steps-IsInOrder_example : IsInOrder (run_steps (some 1) day new_checkpointer)
run_steps-IsInOrder_example = run_steps-IsInOrder (some 1) day
