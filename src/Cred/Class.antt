-- ===== src/Cred/Class.antt =====
-- The checks of cred.c against the Unix rule: the file's class of the process (owner, group or
-- other) selects three bits of the mode, and one of these grants the access.
use hobbyos.Base.{ℕ, ◌/◌, ◌%◌, ◌≡◌, Bool, ◌==◌, ◌||◌, if◌then◌else◌, arith}
use hobbyos.Base.Words.{bit, flag, flag-bit}
use hobbyos.Process.{Process}
use hobbyos.Cred.{cred_check_read, cred_check_write, cred_check_exec}

pub data FileClass : Type 0 where
  owner group other : FileClass

pub data Access : Type 0 where
  read write exec : Access

unfoldable pub class_of : Process → ℕ → ℕ → FileClass
class_of p uid gid =
    if p.euid == uid
    then FileClass.owner
    else if p.egid == gid
    then FileClass.group
    else FileClass.other

-- The triple of the mode that a class owns: its digit in octal.
unfoldable pub triple : FileClass → ℕ → ℕ
triple FileClass.owner mode = mode / 64 % 8
triple FileClass.group mode = mode / 8 % 8
triple FileClass.other mode = mode % 8

unfoldable pub granted : Access → ℕ → Bool
granted Access.read rwx = rwx / 4 == 1
granted Access.write rwx = rwx / 2 % 2 == 1
granted Access.exec rwx = rwx % 2 == 1

unfoldable pub check : Access → Process → ℕ → ℕ → ℕ → Bool
check Access.read = cred_check_read
check Access.write = cred_check_write
check Access.exec = cred_check_exec

flag_at : (mode k : ℕ) → flag mode k ≡ (bit mode k == 1)
flag_at mode k = flag-bit mode k

-- Each check grants exactly what the Unix rule grants: everything to the effective user 0, and to
-- any other process the bit of its own class alone.
pub check-class :
    (a : Access) (p : Process) (mode uid gid : ℕ)
    → check a p mode uid gid ≡ ((p.euid == 0) || granted a (triple (class_of p uid gid) mode))
unfolding check cred_check_read cred_check_write cred_check_exec class_of triple granted bit
check-class Access.read p mode uid gid =
    ground (arith, flag_at mode 8, flag_at mode 5, flag_at mode 2)
check-class Access.write p mode uid gid =
    ground (arith, flag_at mode 7, flag_at mode 4, flag_at mode 1)
check-class Access.exec p mode uid gid =
    ground (arith, flag_at mode 6, flag_at mode 3, flag_at mode 0)
