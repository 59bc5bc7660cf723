-- ===== src/Cred/Tests.antt =====
-- Runs of the checks.
use hobbyos.Base.{◌≡◌, refl, true, false}
use hobbyos.Process.{Process, zero_process}
use hobbyos.Cred.{cred_check_read, cred_check_write}
use hobbyos.Cred.Class.{Access, class_of, triple, granted, check, check-class}

abbrev alice : Process
unfolding zero_process
alice = record zero_process { euid = 100; egid = 10 }

owner_shut_out :
    (cred_check_read alice 0o077 100 10 ≡ false) × (cred_check_write alice 0o022 7 7 ≡ true)
unfolding cred_check_read cred_check_write zero_process
owner_shut_out = (refl, refl)

check-class_example : check Access.write alice 0o620 5 10 ≡ true
unfolding class_of triple granted zero_process
check-class_example = check-class Access.write alice 0o620 5 10
