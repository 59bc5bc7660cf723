-- ===== src/Journal/Atomic.antt =====
-- A commit is all or nothing, wherever it is cut off.
use hobbyos.Base.{
  ℕ, zero, suc, ◌<◌, ◌≡◌, sym, ap, ◌∙◌, subst, false, List, [], ◌∷◌, ◌++◌, take, inl, inr, ◌⊎◌,
}
use hobbyos.Journal.{
  Sector, Disk, Write, Txn, Journal, apply, final_writes, header, commit_writes, recover,
  is_pending, journal_start_lba,
}
use hobbyos.Journal.Writes.{apply-append, take_split}
use hobbyos.Journal.Crash.{
  IsTxn, before, mark, finals, marked, done, recover-marked, recover-done, recover_early,
}

-- The disk `e`, once recovered, has in front of the journal what the writes leave there on `d`.
abbrev pub Recovers : Disk → List Write → Disk → Type 0
Recovers e ws d = (x : ℕ) → x < 65536 → (recover e).1 x ≡ apply ws d x

module _ (memory : ℕ → List Sector) (j : Journal) (t : Txn) (ok : IsTxn memory t) (d : Disk)
    (idle : is_pending d ≡ false) where
  abbrev after : List Write
  after = finals memory j t ok ++ ((journal_start_lba, header j t 2) ∷ [])

  all_done : apply after (marked memory j t ok d) ≡ done memory j t ok d
  unfolding apply
  all_done =
      apply-append (finals memory j t ok) ((journal_start_lba, header j t 2) ∷ [])
        (marked memory j t ok d)

  when_done : (e : Disk) → e ≡ done memory j t ok d → Recovers e (finals memory j t ok) d
  when_done e same x h = ap (λ (f : Disk). (recover f).1 x) same ∙ recover-done memory j t ok d x h

  after_mark :
      (k : ℕ) → Recovers (apply (take k after) (marked memory j t ok d)) (finals memory j t ok) d
  after_mark k =
      elim (take_split k (finals memory j t ok) ((journal_start_lba, header j t 2) ∷ [])) [
        | inl (g, e) ↦ rw e (λ x h. recover-marked memory j t ok g d x h)
        | inr (zero, e) ↦ rw e (when_done _ all_done)
        | inr (suc k, e) ↦ rw e (when_done _ all_done)
      ]

  -- A crash after any number `m` of the sector writes of a commit, and the recovery at the next
  -- start, leave in front of the journal either everything as it was, or what the transaction's
  -- blocks in their places make of it; and it is the latter when all writes have been made. The
  -- journal held no other pending transaction.
  pub crash_atomic :
      (m : ℕ)
      → (Recovers (apply (take m (commit_writes memory j t)) d) [] d
          ⊎ Recovers
              (apply (take m (commit_writes memory j t)) d)
              (final_writes memory t t.count 0)
              d)
        × Recovers (apply (commit_writes memory j t) d) (final_writes memory t t.count 0) d
  unfolding apply
  crash_atomic m = (
    elim (take_split m (before memory j t ok) (mark memory j t ok ∷ after)) [
      | inl (k, e) ↦ inl (rw e (λ x h. recover_early memory j t ok k d idle x h))
      | inr (k, e) ↦ inr (
          rw e (
            subst (λ (f : Disk). Recovers f (finals memory j t ok) d)
              (sym (apply-append (before memory j t ok) (mark memory j t ok ∷ take k after) d))
              (after_mark k)))
    ],
    when_done _ (apply-append (before memory j t ok) (mark memory j t ok ∷ after) d ∙ all_done),
  )
