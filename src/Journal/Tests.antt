-- ===== src/Journal/Tests.antt =====
-- A transaction of one block, cut off after its mark.
use hobbyos.Base.{
  ℕ, zero, suc, ◌<◌, ◌≡◌, refl, true, some, List, [], ◌∷◌, replicate, take, arith, ◌⊎◌,
}
use hobbyos.Journal.{
  Sector, Disk, Txn, Journal, new_txn, apply, final_writes, commit_writes, target, journal_log,
}
use hobbyos.Journal.Crash.{IsTxn}
use hobbyos.Journal.Atomic.{Recovers, crash_atomic}

abbrev empty_disk : Disk
empty_disk x = []

abbrev memory : ℕ → List Sector
memory a = replicate 8 (a ∷ [])

abbrev one_block : Txn
one_block = record new_txn {
  target_blocks = 100 ∷ replicate 15 0;
  block_data = 7 ∷ replicate 15 0;
  count = 1;
}

abbrev ready : Journal
ready = record { journal_seq = 3; journal_ready = true }

logs : journal_log new_txn 100 7 ≡ some one_block
unfolding journal_log
logs = refl

one_block-IsTxn : IsTxn memory one_block
one_block-IsTxn = record {
  blocks = λ i. refl;
  fits = omega arith;
  targets = omega arith;
  in_front = in_front;
}
  where
    in_front : (i : ℕ) → i < 1 → target memory one_block i < 8192
    in_front zero h = omega arith
    in_front (suc i) h = absurd (omega arith)

crash_atomic_example :
    (Recovers (apply (take 10 (commit_writes memory ready one_block)) empty_disk) [] empty_disk
      ⊎ Recovers
          (apply (take 10 (commit_writes memory ready one_block)) empty_disk)
          (final_writes memory one_block 1 0)
          empty_disk)
    × Recovers
        (apply (commit_writes memory ready one_block) empty_disk)
        (final_writes memory one_block 1 0)
        empty_disk
crash_atomic_example = crash_atomic memory ready one_block one_block-IsTxn empty_disk refl 10
