-- ===== src/Rpc/Logs/Order.antt =====
-- The order of the logs that are returned, and that none is there twice.
use guard_daemon.Prelude.{
  ◌<◌, ◌≤◌, ◌≡◌, sym, ◌⊎◌, inl, inr, true, false, List, [], ◌∷◌, arith, Bool-cases,
}
use guard_daemon.External.{Log}
use guard_daemon.Rpc.Logs.{log_before, insert_log, sort_logs}
use guard_daemon.Rpc.Logs.Encoding.{AllLogs, insert_log-AllLogs, sort_logs-AllLogs}

-- By block, by the transaction in the block, by the log's index.
abbrev pub InOrder : Log → Log → Type 0
InOrder a b =
    (a.block_number < b.block_number)
    ⊎ ((a.block_number ≡ b.block_number)
        × ((a.tx_index < b.tx_index) ⊎ ((a.tx_index ≡ b.tx_index) × (a.index ≤ b.index))))

-- Every log is in order with all that follow it.
abbrev pub IsSorted : List Log → Type 0
IsSorted [] = Unit {0}
IsSorted (l ∷ ls) = AllLogs (InOrder l) ls × IsSorted ls

abbrev pub Differ : Log → Log → Type 0
Differ a b = ¬ ((a.block_hash ≡ b.block_hash) × (a.tx_hash ≡ b.tx_hash) × (a.index ≡ b.index))

-- No two logs have the same block, transaction and index.
abbrev pub AreDistinct : List Log → Type 0
AreDistinct [] = Unit {0}
AreDistinct (l ∷ ls) = AllLogs (Differ l) ls × AreDistinct ls

log_before-InOrder : (a b : Log) → log_before a b ≡ true → InOrder a b
unfolding log_before
log_before-InOrder a b h = ground arith

not-log_before-InOrder : (a b : Log) → log_before a b ≡ false → InOrder b a
unfolding log_before
not-log_before-InOrder a b h = ground arith

InOrder-trans : (a b c : Log) → InOrder a b → InOrder b c → InOrder a c
InOrder-trans a b c h k = ground arith

AllLogs-InOrder :
    (a b : Log) (ls : List Log) → InOrder a b → AllLogs (InOrder b) ls → AllLogs (InOrder a) ls
AllLogs-InOrder a b [] h k = tt
AllLogs-InOrder a b (l ∷ ls) h k = (InOrder-trans a b l h k.0, AllLogs-InOrder a b ls h k.1)

insert_log-IsSorted : (l : Log) (ls : List Log) → IsSorted ls → IsSorted (insert_log l ls)
unfolding insert_log
insert_log-IsSorted l [] s = (tt, tt)
insert_log-IsSorted l (m ∷ ms) s = elim (Bool-cases (log_before m l)) [
  | inl e ↦ rw e (
    insert_log-AllLogs (InOrder m) l ms (log_before-InOrder m l e) s.0,
    insert_log-IsSorted l ms s.1,
  )
  | inr e ↦
      let first = not-log_before-InOrder m l e in
      rw e ((first, AllLogs-InOrder l m ms first s.0), s)
]

-- Whatever the providers answered, the logs come out in order.
pub sort_logs-IsSorted : (ls : List Log) → IsSorted (sort_logs ls)
unfolding sort_logs
sort_logs-IsSorted [] = tt
sort_logs-IsSorted (l ∷ ls) = insert_log-IsSorted l (sort_logs ls) (sort_logs-IsSorted ls)

insert_log-AreDistinct :
    (l : Log) (ls : List Log)
    → AllLogs (Differ l) ls
    → AreDistinct ls
    → AreDistinct (insert_log l ls)
unfolding insert_log
insert_log-AreDistinct l [] d s = (tt, tt)
insert_log-AreDistinct l (m ∷ ms) d s = elim (Bool-cases (log_before m l)) [
  | inl e ↦ rw e (
    insert_log-AllLogs (Differ m) l ms (λ (b, t, i). d.0 (sym b, sym t, sym i)) s.0,
    insert_log-AreDistinct l ms d.1 s.1,
  )
  | inr e ↦ rw e (d, s)
]

pub sort_logs-AreDistinct : (ls : List Log) → AreDistinct ls → AreDistinct (sort_logs ls)
unfolding sort_logs
sort_logs-AreDistinct [] s = tt
sort_logs-AreDistinct (l ∷ ls) s =
    insert_log-AreDistinct l (sort_logs ls) (sort_logs-AllLogs (Differ l) ls s.0)
      (sort_logs-AreDistinct ls s.1)
