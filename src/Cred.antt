-- ===== src/Cred.antt =====
-- kernel/security/cred.c: the permission checks on an inode's mode.
pub mod Class
mod Tests
use hobbyos.Base.{ℕ, Bool, true, ◌==◌, not, if◌then◌else◌, bit_and}
use hobbyos.Process.{Process}

-- `(i_mode & mask) != 0`
abbrev pub masked : ℕ → ℕ → Bool
masked i_mode mask = not (bit_and i_mode mask == 0)

pub cred_check_read : Process → ℕ → ℕ → ℕ → Bool
cred_check_read proc i_mode i_uid i_gid =
    if proc.euid == 0
    then true
    else if proc.euid == i_uid
    then masked i_mode 0o400
    else if proc.egid == i_gid
    then masked i_mode 0o040
    else masked i_mode 0o004

pub cred_check_write : Process → ℕ → ℕ → ℕ → Bool
cred_check_write proc i_mode i_uid i_gid =
    if proc.euid == 0
    then true
    else if proc.euid == i_uid
    then masked i_mode 0o200
    else if proc.egid == i_gid
    then masked i_mode 0o020
    else masked i_mode 0o002

pub cred_check_exec : Process → ℕ → ℕ → ℕ → Bool
cred_check_exec proc i_mode i_uid i_gid =
    if proc.euid == 0
    then true
    else if proc.euid == i_uid
    then masked i_mode 0o100
    else if proc.egid == i_gid
    then masked i_mode 0o010
    else masked i_mode 0o001
