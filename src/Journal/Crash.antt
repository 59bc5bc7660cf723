-- ===== src/Journal/Crash.antt =====
-- A crash during a commit, and the recovery after it: all or nothing of the transaction.
use hobbyos.Base.{
  ℕ, zero, suc, ◌+◌, ◌*◌, ◌-◌, ◌≤◌, ◌<◌, ◌≡◌, ◌≢◌, refl, sym, ap, ap₂, ◌∙◌, subst, Bool, true,
  false, ◌&&◌, List, [], ◌∷◌, ◌++◌, ◌==◌, if◌then◌else◌, length, get_or, take, replicate, set,
  arith,
}
use hobbyos.Journal.{
  Sector, Disk, Write, Txn, Journal, write, apply, sector_writes, read_sectors, area_writes,
  final_writes, block, target, header, replay, recover, is_pending, rounds, word, journal_start_lba,
  journal_magic,
}
use hobbyos.Journal.Writes.{
  apply-append, apply-untouched, apply-local, apply-again, sector_writes-All, read_sectors-block,
  Avoids, Avoids-take, area_writes-above, area_holds, final_writes-below,
}

-- The targets in the header are those of the transaction.
taken_target :
    (n i : ℕ) (xs ys : List ℕ)
    → i < n
    → n ≤ length xs
    → get_or (take n xs ++ ys) i 0 ≡ get_or xs i 0
taken_target zero i xs ys h l = absurd (omega arith)
taken_target (suc n) i [] ys h l = absurd (omega arith)
taken_target (suc n) zero (x ∷ xs) ys h l = refl
taken_target (suc n) (suc i) (x ∷ xs) ys h l = taken_target n i xs ys (omega arith) (omega arith)

-- A transaction that fits the journal, with targets in front of it.
pub record IsTxn (memory : ℕ → List Sector) (t : Txn) : Type 0 where
  pub blocks : (i : ℕ) → length (block memory t i) ≡ 8
  pub fits : t.count ≤ 16
  pub targets : t.count ≤ length t.target_blocks
  pub in_front : (i : ℕ) → i < t.count → target memory t i < 8192

module _ (memory : ℕ → List Sector) (j : Journal) (t : Txn) (ok : IsTxn memory t) where
  -- From a disk whose journal area holds the blocks, the replay makes the writes to their places.
  header-target : (i : ℕ) → i < t.count → word (header j t 1) (4 + i) ≡ target memory t i
  header-target i h =
      let four : 4 + i ≡ suc (suc (suc (suc i))) = omega arith in
      ap (word (header j t 1)) four
      ∙ taken_target t.count i t.target_blocks (replicate (124 - t.count) 0) h ok.targets

  Holds : Disk → Type 0
  Holds d = (n k : ℕ) → n < t.count → k < 8 → d (65537 + 8 * n + k) ≡ get_or (block memory t n) k []

  one_block-Holds :
      (i : ℕ) (d : Disk)
      → i < t.count
      → Holds d
      → Holds (apply (sector_writes (target memory t i * 8) (block memory t i)) d)
  unfolding Holds
  one_block-Holds i d hi holds n k hn hk =
      apply-untouched (sector_writes (target memory t i * 8) (block memory t i)) d
        (65537 + 8 * n + k)
        (sector_writes-All (λ m. 65537 + 8 * n + k ≢ m) (target memory t i * 8) (block memory t i)
          (λ k l e. omega (arith, ok.in_front i hi, ok.blocks i)))
      ∙ holds n k hn hk

  block_read :
      (i : ℕ) (d : Disk)
      → i < t.count
      → Holds d
      → read_sectors d (65537 + 8 * i) 8 ≡ block memory t i
  unfolding Holds
  block_read i d hi holds =
      ap (read_sectors d (65537 + 8 * i)) (sym (ok.blocks i))
      ∙ read_sectors-block d (65537 + 8 * i) (block memory t i)
          (λ k l. holds i k hi (omega (arith, ok.blocks i)))

  replay_lem :
      (left i lba : ℕ) (d : Disk)
      → i + left ≡ t.count
      → lba ≡ 65537 + 8 * i
      → Holds d
      → replay left i lba (header j t 1) d ≡ apply (final_writes memory t left i) d
  unfolding replay final_writes apply
  replay_lem zero i lba d e at holds = refl
  replay_lem (suc left) i lba d e at holds =
      let hi : i < t.count = omega (arith, e) in
      let b = block memory t i in
      let d' = apply (sector_writes (target memory t i * 8) b) d in
      let read : read_sectors d lba 8 ≡ b =
        ap (λ a. read_sectors d a 8) at ∙ block_read i d hi holds in
      ap₂
        (λ (w : ℕ) (r : List Sector).
          replay left (i + 1) (lba + 8) (header j t 1) (apply (sector_writes (w * 8) r) d))
        (header-target i hi) read
      ∙ replay_lem left (i + 1) (lba + 8) d' (omega (arith, e)) (omega (arith, at))
          (one_block-Holds i d hi holds)
      ∙ sym (
          apply-append (sector_writes (target memory t i * 8) b)
            (final_writes memory t left (i + 1)) d)

  -- The three parts of a commit's writes.
  abbrev pub before : List Write
  before =
      (journal_start_lba, header j t 0) ∷ area_writes memory t t.count 0 (journal_start_lba + 1)

  abbrev pub mark : Write
  mark = (journal_start_lba, header j t 1)

  abbrev pub finals : List Write
  finals = final_writes memory t t.count 0

  before-Avoids : (x : ℕ) → x < 65536 → Avoids x before
  before-Avoids x h =
      ((λ e. omega arith), area_writes-above memory t ok.blocks t.count 0 65537 x (omega arith))

  area-Avoids : Avoids 65536 (area_writes memory t t.count 0 (journal_start_lba + 1))
  area-Avoids = area_writes-above memory t ok.blocks t.count 0 65537 65536 (omega arith)

  finals-Avoids : (x : ℕ) → 65536 ≤ x → Avoids x finals
  finals-Avoids x h =
      final_writes-below memory t ok.blocks t.count 0 x h (λ n l. ok.in_front n (omega arith))

  -- Some of the writes before the mark: the journal is not pending, and nothing in front changes.
  early_pending :
      (k : ℕ) (d : Disk) → is_pending d ≡ false → is_pending (apply (take k before) d) ≡ false
  unfolding apply
  early_pending zero d idle = idle
  early_pending (suc k) d idle =
      let ws = take k (area_writes memory t t.count 0 (journal_start_lba + 1)) in
      let d' = write (journal_start_lba, header j t 0) d in
      let same : apply ws d' 65536 ≡ header j t 0 =
        apply-untouched ws d' 65536 (Avoids-take 65536 k _ area-Avoids) in
      ap (λ (h : Sector). (word h 0 == journal_magic) && (word h 3 == 1)) same

  -- The disk when the mark and some of the writes to the blocks' places have been made.
  abbrev pub marked : Disk → Disk
  marked d = write mark (apply before d)

  marked_front : (d : Disk) (x : ℕ) → x < 65536 → marked d x ≡ d x
  marked_front d x h =
      let off : (x == 65536) ≡ false = ground (arith, h) in
      subst (λ b. (if b then header j t 1 else apply before d x) ≡ d x) (sym off)
        (apply-untouched before d x (before-Avoids x h))

  marked-Holds : (g : ℕ) (d : Disk) → Holds (apply (take g finals) (marked d))
  unfolding Holds apply
  marked-Holds g d n k hn hk =
      let x = 65537 + 8 * n + k in
      let off : (x == 65536) ≡ false = ground arith in
      let d0 = write (journal_start_lba, header j t 0) d in
      let z : 0 + n ≡ n = omega arith in
      apply-untouched (take g finals) (marked d) x
        (Avoids-take x g finals (finals-Avoids x (omega arith)))
      ∙ subst (λ b. (if b then header j t 1 else apply before d x) ≡ get_or (block memory t n) k [])
          (sym off)
          (area_holds memory t ok.blocks t.count 0 65537 d0 n k hn hk
            ∙ ap (λ m. get_or (block memory t m) k []) z)

  marked-header : (g : ℕ) (d : Disk) → apply (take g finals) (marked d) 65536 ≡ header j t 1
  marked-header g d =
      apply-untouched (take g finals) (marked d) 65536
        (Avoids-take 65536 g finals (finals-Avoids 65536 (omega arith)))

  recover_pending :
      (e : Disk)
      → e 65536 ≡ header j t 1
      → Holds e
      → (x : ℕ) → x < 65536
      → (recover e).1 x ≡ apply finals e x
  unfolding recover
  recover_pending e head holds x hx =
      let off : (x == 65536) ≡ false = ground (arith, hx) in
      let few : rounds (header j t 1) ≡ t.count = ground (arith, ok.fits) in
      let answer : Sector → Bool × Disk = λ h.
        if (word h 0 == journal_magic) && (word h 3 == 1)
        then (true, write (journal_start_lba, set h 3 2) (replay (rounds h) 0 65537 h e))
        else (false, e) in
      ap (λ (h : Sector). (answer h).1 x) head
      ∙ subst
          (λ b.
            (if b
              then set (header j t 1) 3 2
              else replay (rounds (header j t 1)) 0 65537 (header j t 1) e x)
            ≡ apply finals e x)
          (sym off)
          (ap (λ n. replay n 0 65537 (header j t 1) e x) few
            ∙ ap (λ (f : Disk). f x)
                (replay_lem t.count 0 65537 e (omega arith) (omega arith) holds))

  pub recover-marked :
      (g : ℕ) (d : Disk) (x : ℕ)
      → x < 65536
      → (recover (apply (take g finals) (marked d))).1 x ≡ apply finals d x
  recover-marked g d x h =
      recover_pending (apply (take g finals) (marked d)) (marked-header g d) (marked-Holds g d) x h
      ∙ apply-again finals g (marked d) x
      ∙ apply-local finals (marked d) d x (marked_front d x h)

  recover_idle : (e : Disk) → is_pending e ≡ false → (recover e).1 ≡ e
  unfolding recover
  recover_idle e idle = rw idle refl

  -- The disk after all writes.
  abbrev pub done : Disk → Disk
  done d = write (journal_start_lba, header j t 2) (apply finals (marked d))

  pub recover-done : (d : Disk) (x : ℕ) → x < 65536 → (recover (done d)).1 x ≡ apply finals d x
  recover-done d x h =
      let off : (x == 65536) ≡ false = ground (arith, h) in
      ap (λ (f : Disk). f x) (recover_idle (done d) refl)
      ∙ subst (λ b. (if b then header j t 2 else apply finals (marked d) x) ≡ apply finals d x)
          (sym off) (apply-local finals (marked d) d x (marked_front d x h))

  pub recover_early :
      (k : ℕ) (d : Disk)
      → is_pending d ≡ false
      → (x : ℕ) → x < 65536
      → (recover (apply (take k before) d)).1 x ≡ d x
  recover_early k d idle x h =
      ap (λ (f : Disk). f x) (recover_idle (apply (take k before) d) (early_pending k d idle))
      ∙ apply-untouched (take k before) d x (Avoids-take x k before (before-Avoids x h))
