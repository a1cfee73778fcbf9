-- ===== src/Sync/Accumulation.antt =====
-- The accumulator of operations over its calls (src/sync/batch.rs, `BatchAccumulator`).
use peat_btle.Prelude.{
  ◌≡◌, refl, ap, sym, ◌∙◌, Bool, true, false, none, some, List, [], ◌∷◌, ◌++◌, inl, inr, append_nil,
  arith, if◌then◌else◌,
}
use mathlib.Core.Path.{subst}
use mathlib.Core.List.{append_assoc}
use peat_btle.Crdt.Operation.{CrdtOperation}
use peat_btle.Sync.Batch.{BatchAccumulator, BatchConfig, add, flush, clear, new}
use peat_btle.Sync.Accounting.{
  Log, log_after, BatchCall, after, IsAccounted, extended, add-cases, flush-cases,
  after-IsAccounted, added, flushed, cleared,
}

-- The operations that a call takes in, and those that it hands over.
unfoldable pub taken : BatchCall → BatchAccumulator → List CrdtOperation
taken (added op t) a = if (add op t a).0 then op ∷ [] else []
taken (flushed t) a = []
taken cleared a = []

unfoldable pub handed : BatchCall → BatchAccumulator → List CrdtOperation
handed (added op t) a = []
handed (flushed t) a = elim (flush t a).0 [ none ↦ [] | some b ↦ b.operations ]
handed cleared a = a.pending

-- A run of calls: all that was taken in, all that was handed over, and the accumulator at the end.
unfoldable pub run :
    List BatchCall → BatchAccumulator → List CrdtOperation × (List CrdtOperation × BatchAccumulator)
run [] a = ([], ([], a))
run (call ∷ calls) a =
    let rest = run calls (after call a) in
    (taken call a ++ rest.0, (handed call a ++ rest.1.0, rest.1.1))

-- One call, as a queue sees it.
after-Fifo :
    (call : BatchCall) (a : BatchAccumulator)
    → handed call a ++ (after call a).pending ≡ a.pending ++ taken call a
unfolding after flush clear handed taken
after-Fifo (added op t) a = elim (add-cases op t a) [
  | inl e ↦ added_from (false, a) e (sym (append_nil a.pending))
  | inr (_, (_, e)) ↦ added_from (true, extended op t a) e refl
]
  where
    added_from :
        (out : Bool × BatchAccumulator)
        → add op t a ≡ out
        → out.1.pending ≡ a.pending ++ (if out.0 then op ∷ [] else [])
        → (add op t a).1.pending ≡ a.pending ++ (if (add op t a).0 then op ∷ [] else [])
    added_from out e =
        subst (λ out. out.1.pending ≡ a.pending ++ (if out.0 then op ∷ [] else [])) (sym e)
after-Fifo (flushed t) a = elim (flush-cases t a) [
  | inl (_, e) ↦
      subst
        (λ out. elim out.0 [ none ↦ [] | some b ↦ b.operations ] ++ out.1.pending ≡ a.pending ++ [])
        (sym e) (sym (append_nil a.pending))
  | inr e ↦
      subst
        (λ out. elim out.0 [ none ↦ [] | some b ↦ b.operations ] ++ out.1.pending ≡ a.pending ++ [])
        (sym e) refl
]
after-Fifo cleared a = refl

-- Any run of calls of `add`, `flush` and `clear` from any accumulator. What the calls handed over (or
-- cleared away), followed by what is still pending, is what was pending at first followed by what the
-- calls took in, in that order: the accumulator is a queue, which loses, repeats and reorders nothing.
pub run-Fifo :
    (calls : List BatchCall) (a : BatchAccumulator)
    → (run calls a).1.0 ++ (run calls a).1.1.pending ≡ a.pending ++ (run calls a).0
unfolding run
run-Fifo [] a = sym (append_nil a.pending)
run-Fifo (call ∷ calls) a =
    let rest = run calls (after call a) in
    append_assoc (handed call a) rest.1.0 rest.1.1.pending
    ∙ (ap (λ ops. handed call a ++ ops) (run-Fifo calls (after call a))
        ∙ (sym (append_assoc (handed call a) (after call a).pending rest.0)
            ∙ (ap (λ ops. ops ++ rest.0) (after-Fifo call a)
                ∙ append_assoc a.pending (taken call a) rest.0)))

unfoldable pub run_log : List BatchCall → BatchAccumulator → Log → Log
run_log [] a log = log
run_log (call ∷ calls) a log = run_log calls (after call a) (log_after call a log)

run_from-IsAccounted :
    (calls : List BatchCall) (log : Log) (a : BatchAccumulator)
    → IsAccounted log a
    → IsAccounted (run_log calls a log) (run calls a).1.1
unfolding run run_log
run_from-IsAccounted [] log a h = h
run_from-IsAccounted (call ∷ calls) log a h =
    run_from-IsAccounted calls (log_after call a log) (after call a)
      (after-IsAccounted call log a h)

-- Any run of calls of `add`, `flush` and `clear` on a new accumulator. The operations that were accepted
-- since the last flush or clear are pending, and the first time that is noted is that of the call which
-- added the oldest of them; there is none when nothing is pending. The bytes are the sum of the sizes of
-- the pending operations, there are never more operations than the limit, and they exceed the limit of
-- bytes only when there is but one.
pub run-IsAccounted :
    (calls : List BatchCall) (config : BatchConfig)
    → IsAccounted (run_log calls (new config) []) (run calls (new config)).1.1
unfolding new
run-IsAccounted calls config = run_from-IsAccounted calls [] (new config) (record {
  pending_logged = refl;
  oldest_noted = refl;
  bytes_of_pending = refl;
  count_limit = omega arith;
  byte_limit = inl (omega arith);
})
