-- ===== src/Sync/Accounting.antt =====
-- What each call of the accumulator of operations keeps true (src/sync/batch.rs, `BatchAccumulator`).
use peat_btle.Prelude.{
  ℕ, ◌+◌, ◌≤◌, ◌<◌, ◌≡◌, refl, ap, sym, ◌∙◌, Bool, true, false, not, ◌&&◌, Option, none, some, List,
  [], ◌∷◌, ◌++◌, ◌⊎◌, inl, inr, length, length-append, arith, ltb, leb, ltb→le, Bool-cases,
  if◌then◌else◌,
}
use mathlib.Core.Path.{subst}
use peat_btle.Crdt.Operation.{CrdtOperation, size}
use peat_btle.Sync.Batch.{BatchAccumulator, is_empty, or_first, add, flush, clear}
use peat_btle.Sync.BatchCodec.{total_size}

pub data BatchCall : Type 0 where
  added : CrdtOperation → ℕ → BatchCall
  flushed : ℕ → BatchCall
  cleared : BatchCall

-- The accumulator after a call.
unfoldable pub after : BatchCall → BatchAccumulator → BatchAccumulator
after (added op t) a = (add op t a).1
after (flushed t) a = (flush t a).1
after cleared a = clear a

-- The operations that were accepted since the accumulator was last emptied, each with the time of its
-- call, the oldest one first.
abbrev pub Log : Type 0
Log = List (CrdtOperation × ℕ)

unfoldable pub log_after : BatchCall → BatchAccumulator → Log → Log
log_after (added op t) a log = if (add op t a).0 then log ++ ((op, t) ∷ []) else log
log_after (flushed t) a log = []
log_after cleared a log = []

abbrev pub operations_of : Log → List CrdtOperation
operations_of [] = []
operations_of ((op, t) ∷ log) = op ∷ operations_of log

abbrev pub oldest_time : Log → Option ℕ
oldest_time [] = none
oldest_time ((op, t) ∷ log) = some t

-- What the accumulator keeps true: the logged operations are pending, the time that is noted is that of
-- the oldest one, the bytes are those of the operations, and the limits hold, but for one operation that
-- is larger than the limit of bytes.
pub record IsAccounted (log : Log) (a : BatchAccumulator) : Type 0 where
  pub pending_logged : a.pending ≡ operations_of log
  pub oldest_noted : a.first_pending_time ≡ oldest_time log
  pub bytes_of_pending : a.bytes_accumulated ≡ total_size a.pending 0
  pub count_limit : length a.pending ≤ a.config.max_operations
  pub byte_limit : (a.bytes_accumulated ≤ a.config.max_bytes) ⊎ (length a.pending ≤ 1)

total_size_last :
    (ops : List CrdtOperation) (op : CrdtOperation) (total : ℕ)
    → total_size (ops ++ (op ∷ [])) total ≡ total_size ops total + size op
total_size_last [] op total = refl
total_size_last (x ∷ ops) op total = total_size_last ops op (total + size x)

is_empty-zero : (ops : List CrdtOperation) → is_empty ops ≡ true → length ops ≡ 0
is_empty-zero [] e = refl
is_empty-zero (op ∷ ops) e = absurd (ground arith)

is_empty-nil : (ops : List CrdtOperation) → is_empty ops ≡ true → ops ≡ []
is_empty-nil [] e = refl
is_empty-nil (op ∷ ops) e = absurd (ground arith)

operations_of-append :
    (log : Log) (op : CrdtOperation) (t : ℕ)
    → operations_of (log ++ ((op, t) ∷ [])) ≡ operations_of log ++ (op ∷ [])
operations_of-append [] op t = refl
operations_of-append (e ∷ log) op t = ap (λ ops. e.0 ∷ ops) (operations_of-append log op t)

oldest_time-append :
    (log : Log) (op : CrdtOperation) (t : ℕ)
    → or_first (oldest_time log) t ≡ oldest_time (log ++ ((op, t) ∷ []))
oldest_time-append [] op t = refl
oldest_time-append (e ∷ log) op t = refl

operations_of-nil : (log : Log) → [] ≡ operations_of log → log ≡ []
operations_of-nil [] e = refl
operations_of-nil (l ∷ log) e = absurd (ground arith)

leb→lt : (m n : ℕ) → leb m n ≡ false → n < m
leb→lt m n e = ground arith

-- The accumulator with one operation more.
abbrev pub extended : CrdtOperation → ℕ → BatchAccumulator → BatchAccumulator
extended op t a = record a {
  pending = a.pending ++ (op ∷ []);
  bytes_accumulated = a.bytes_accumulated + size op;
  first_pending_time = or_first a.first_pending_time t;
}

-- The condition on which `add` refuses an operation for the bytes.
abbrev is_over : CrdtOperation → BatchAccumulator → Bool
is_over op a = ltb a.config.max_bytes (a.bytes_accumulated + size op) && not (is_empty a.pending)

pub add-cases :
    (op : CrdtOperation) (t : ℕ) (a : BatchAccumulator)
    → (add op t a ≡ (false, a))
      ⊎ ((is_over op a ≡ false)
          × ((leb a.config.max_operations (length a.pending) ≡ false)
              × (add op t a ≡ (true, extended op t a))))
unfolding add
add-cases op t a = elim (Bool-cases (is_over op a)) [
  | inl over ↦ inl (rw over)
  | inr under ↦ elim (Bool-cases (leb a.config.max_operations (length a.pending))) [
    | inl full ↦ inl (rw (under, full))
    | inr free ↦ inr (under, (free, rw (under, free)))
  ]
]

extended-IsAccounted :
    (op : CrdtOperation) (t : ℕ) (log : Log) (a : BatchAccumulator)
    → is_over op a ≡ false
    → leb a.config.max_operations (length a.pending) ≡ false
    → IsAccounted log a
    → IsAccounted (log ++ ((op, t) ∷ [])) (extended op t a)
extended-IsAccounted op t log a under free h = record {
  pending_logged =
      ap (λ ops. ops ++ (op ∷ [])) h.pending_logged ∙ sym (operations_of-append log op t);
  oldest_noted = ap (λ first. or_first first t) h.oldest_noted ∙ oldest_time-append log op t;
  bytes_of_pending =
      ap (λ n. n + size op) h.bytes_of_pending ∙ sym (total_size_last a.pending op 0);
  count_limit = omega (
    arith,
    length-append a.pending (op ∷ []),
    leb→lt a.config.max_operations (length a.pending) free,
  );
  byte_limit = byte_limit_kept;
}
  where
    byte_limit_kept :
        (a.bytes_accumulated + size op ≤ a.config.max_bytes) ⊎ (length (a.pending ++ (op ∷ [])) ≤ 1)
    byte_limit_kept = elim (Bool-cases (ltb a.config.max_bytes (a.bytes_accumulated + size op))) [
      | inr e ↦ inl (ltb→le a.config.max_bytes (a.bytes_accumulated + size op) e)
      | inl e ↦ elim (Bool-cases (is_empty a.pending)) [
        | inl none_yet ↦
            inr (omega (arith, length-append a.pending (op ∷ []), is_empty-zero a.pending none_yet))
        | inr some_yet ↦ absurd (ground (arith, under, e, some_yet))
      ]
    ]

empty-IsAccounted :
    (a : BatchAccumulator) (t : ℕ)
    → IsAccounted [] (record a {
      pending = [];
      bytes_accumulated = 0;
      first_pending_time = none;
      last_sync_time = t;
    })
empty-IsAccounted a t = record {
  pending_logged = refl;
  oldest_noted = refl;
  bytes_of_pending = refl;
  count_limit = omega arith;
  byte_limit = inl (omega arith);
}

-- The accumulator after its operations are handed over.
abbrev pub emptied : ℕ → BatchAccumulator → BatchAccumulator
emptied t a = record a {
  pending = [];
  bytes_accumulated = 0;
  first_pending_time = none;
  last_sync_time = t;
}

pub flush-cases :
    (t : ℕ) (a : BatchAccumulator)
    → ((a.pending ≡ []) × (flush t a ≡ (none, a)))
      ⊎ (flush t a ≡ (
        some (record { operations = a.pending; total_bytes = a.bytes_accumulated; created_at = t }),
        emptied t a,
      ))
unfolding flush
flush-cases t a = elim (Bool-cases (is_empty a.pending)) [
  | inl e ↦ inl (is_empty-nil a.pending e, rw e)
  | inr e ↦ inr (rw e)
]

-- The log and the accumulator after a call that is answered with `out`.
abbrev AddedTo : CrdtOperation → ℕ → Log → Bool × BatchAccumulator → Type 0
AddedTo op t log out = IsAccounted (if out.0 then log ++ ((op, t) ∷ []) else log) out.1

-- No call of `add`, `flush` or `clear` breaks what the accumulator keeps true.
pub after-IsAccounted :
    (call : BatchCall) (log : Log) (a : BatchAccumulator)
    → IsAccounted log a
    → IsAccounted (log_after call a log) (after call a)
unfolding after flush clear log_after
after-IsAccounted (added op t) log a h = elim (add-cases op t a) [
  | inl e ↦ subst (AddedTo op t log) (sym e) h
  | inr (under, (free, e)) ↦
      subst (AddedTo op t log) (sym e) (extended-IsAccounted op t log a under free h)
]
after-IsAccounted (flushed t) log a h = elim (flush-cases t a) [
  | inl (nothing, e) ↦
      subst (λ out. IsAccounted [] out.1) (sym e)
        (subst (λ l. IsAccounted l a) (operations_of-nil log (sym nothing ∙ h.pending_logged)) h)
  | inr e ↦ subst (λ out. IsAccounted [] out.1) (sym e) (empty-IsAccounted a t)
]
after-IsAccounted cleared log a h = empty-IsAccounted a a.last_sync_time
