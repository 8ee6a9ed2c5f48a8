-- ===== src/Driver/Locks.antt =====
-- Lock discipline, read off the log.
pub mod Keep
use amd_ibs_toolkit.Base.{Bool, true, false, List, [], ◌∷◌}
use amd_ibs_toolkit.Driver.Device.{Log, acquire, release, ctl_lock, read_lock}

-- Whether the control lock is held at the end of a log.
abbrev pub ctl_held : Log → Bool
ctl_held [] = false
ctl_held (acquire ctl_lock ∷ log) = true
ctl_held (release ctl_lock ∷ log) = false
ctl_held (_ ∷ log) = ctl_held log

-- Whether the read lock is held at the end of a log.
abbrev pub read_held : Log → Bool
read_held [] = false
read_held (acquire read_lock ∷ log) = true
read_held (release read_lock ∷ log) = false
read_held (_ ∷ log) = read_held log
