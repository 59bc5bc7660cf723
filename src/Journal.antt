-- ===== src/Journal.antt =====
-- kernel/fs/journal.c: a transaction is written to a journal on the disk before its blocks are
-- written in place, so that recovery can finish it. The disk is a function from sector numbers to
-- sectors, a sector is a list of 32-bit words, and a block is eight sectors. A call returns the
-- sector writes that it makes, in order; writes do not fail.
pub mod Writes
pub mod Crash
pub mod Atomic
mod Tests
use hobbyos.Base.{
  ℕ, zero, suc, ◌+◌, ◌*◌, ◌-◌, ◌%◌, ◌^◌, Bool, true, false, ◌&&◌, ◌||◌, Option, none, some, List,
  [], ◌∷◌, ◌++◌, ltb, ◌==◌, not, if◌then◌else◌, get_or, set, take, replicate,
}

abbrev pub journal_magic : ℕ
journal_magic = 0x4A524E4C

abbrev pub journal_max_blocks : ℕ
journal_max_blocks = 16

abbrev pub journal_start_lba : ℕ
journal_start_lba = 65536

abbrev pub Sector : Type 0
Sector = List ℕ

abbrev pub Disk : Type 0
Disk = ℕ → Sector

-- One sector write: its number and what is written.
abbrev pub Write : Type 0
Write = ℕ × Sector

-- `block_data` holds addresses; what stands there is read when the transaction is committed.
pub record Txn : Type 0 where
  pub target_blocks : List ℕ
  pub block_data : List ℕ
  pub count : ℕ
  pub active : Bool

pub record Journal : Type 0 where
  pub journal_seq : ℕ
  pub journal_ready : Bool

unfoldable pub journal_init : Journal
journal_init = record { journal_seq = 0; journal_ready = true }

abbrev pub new_txn : Txn
new_txn = record {
  target_blocks = replicate journal_max_blocks 0;
  block_data = replicate journal_max_blocks 0;
  count = 0;
  active = true;
}

unfoldable pub journal_begin : Journal → Option Txn
journal_begin j = if j.journal_ready then some new_txn else none

unfoldable pub journal_log : Txn → ℕ → ℕ → Option Txn
journal_log t block_no bytes =
    if not t.active
    then none
    else if not (ltb t.count journal_max_blocks)
    then none
    else some (record t {
      target_blocks = set t.target_blocks t.count block_no;
      block_data = set t.block_data t.count bytes;
      count = t.count + 1;
    })

-- `struct journal_header`: magic, sequence number, number of blocks, state and targets.
abbrev pub header : Journal → Txn → ℕ → Sector
header j t committed =
    journal_magic ∷ j.journal_seq ∷ t.count ∷ committed ∷ take t.count t.target_blocks
    ++ replicate (124 - t.count) 0

-- `ata_write_sectors` of a block from `lba` on.
unfoldable pub sector_writes : ℕ → List Sector → List Write
sector_writes lba [] = []
sector_writes lba (s ∷ ss) = (lba, s) ∷ sector_writes (lba + 1) ss

module _ (memory : ℕ → List Sector) (t : Txn) where
  abbrev pub block : ℕ → List Sector
  block i = memory (get_or t.block_data i 0)

  abbrev pub target : ℕ → ℕ
  target i = get_or t.target_blocks i 0

  -- The blocks to the journal area, with the rounds that are left.
  unfoldable pub area_writes : ℕ → ℕ → ℕ → List Write
  area_writes zero i lba = []
  area_writes (suc left) i lba = sector_writes lba (block i) ++ area_writes left (i + 1) (lba + 8)

  -- The blocks to their places.
  unfoldable pub final_writes : ℕ → ℕ → List Write
  final_writes zero i = []
  final_writes (suc left) i = sector_writes (target i * 8) (block i) ++ final_writes left (i + 1)

-- All writes of a commit, in order.
abbrev pub commit_writes : (ℕ → List Sector) → Journal → Txn → List Write
commit_writes memory j t =
    ((journal_start_lba, header j t 0) ∷ area_writes memory t t.count 0 (journal_start_lba + 1))
    ++ ((journal_start_lba, header j t 1) ∷ final_writes memory t t.count 0
        ++ ((journal_start_lba, header j t 2) ∷ []))

unfoldable pub journal_commit :
    (ℕ → List Sector) → Txn → Journal → Option (List Write × (Txn × Journal))
journal_commit memory t j =
    if not t.active || (t.count == 0)
    then none
    else some (
      commit_writes memory j t,
      (record t { active = false }, record j { journal_seq = (j.journal_seq + 1) % 2 ^ 32 }),
    )

-- What writes leave on a disk.
abbrev pub write : Write → Disk → Disk
write w d x = if x == w.0 then w.1 else d x

unfoldable pub apply : List Write → Disk → Disk
apply [] d = d
apply (w ∷ ws) d = apply ws (write w d)

unfoldable pub read_sectors : Disk → ℕ → ℕ → List Sector
read_sectors d lba zero = []
read_sectors d lba (suc n) = d lba ∷ read_sectors d (lba + 1) n

abbrev pub word : Sector → ℕ → ℕ
word s i = get_or s i 0

-- The loop of the recovery, with the rounds that are left; `h` is the header in memory.
unfoldable pub replay : ℕ → ℕ → ℕ → Sector → Disk → Disk
replay zero i lba h d = d
replay (suc left) i lba h d =
    replay left (i + 1) (lba + 8) h
      (apply (sector_writes (word h (4 + i) * 8) (read_sectors d lba 8)) d)

-- The disk holds a transaction that is committed and perhaps not applied.
abbrev pub is_pending : Disk → Bool
is_pending d = let h = d journal_start_lba in (word h 0 == journal_magic) && (word h 3 == 1)

-- The rounds of the loop: `i < block_count && i < JOURNAL_MAX_BLOCKS`.
abbrev pub rounds : Sector → ℕ
rounds h = if ltb (word h 2) journal_max_blocks then word h 2 else journal_max_blocks

-- The body of `journal_recover` on a journal that is ready: whether there was something to recover,
-- and the disk after it.
unfoldable pub recover : Disk → Bool × Disk
unfolding apply read_sectors
recover d =
    let h = d journal_start_lba in
    if is_pending d
    then (
      true,
      write (journal_start_lba, set h 3 2) (replay (rounds h) 0 (journal_start_lba + 1) h d),
    )
    else (false, d)

unfoldable pub journal_recover : Journal → Disk → Option (Bool × Disk)
unfolding recover
journal_recover j d = if j.journal_ready then some (recover d) else none
