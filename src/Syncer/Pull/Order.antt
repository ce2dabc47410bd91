-- ===== src/Syncer/Pull/Order.antt =====
-- The order of the steps of a remote deletion.
use home_drive.Base.{◌≡◌, Option, none, some, if◌then◌else◌}
use home_drive.Base.Text.{Bytes}
use home_drive.Syncer.Types.{
  Error, FileInfo, Stat, found, missing, unreadable, Removal, removed, absent, refused,
}
use home_drive.Syncer.Go.{Call, Resp, Go, local_lstat, local_remove, store_delete, audit}
use home_drive.Syncer.Safe.{Monitor}

-- How far a remote deletion is: the local side not settled, settled, and gone from the journal.
pub data Progress : Type 0 where
  begun settled forgotten : Progress

abbrev on_info : FileInfo → Progress
on_info info = if info.is_dir then settled else begun

abbrev on_stat : Stat → Progress
on_stat (found info) = on_info info
on_stat missing = begun
on_stat (unreadable e) = begun

abbrev on_removal : Removal → Progress
on_removal removed = settled
on_removal absent = settled
on_removal (refused e) = begun

abbrev on_forgotten : Option Error → Progress
on_forgotten none = forgotten
on_forgotten (some e) = settled

-- A file that is removed or absent, and a directory that is kept, settle the local side.
abbrev pub progress : Progress → (c : Call) → Resp c → Progress
progress m (local_remove p) r = on_removal r
progress m (local_lstat p) r = on_stat r
progress m (store_delete p) r = on_forgotten r
progress m _ r = m

-- Only the path of the change is touched, its journal entry only when the local side is settled.
abbrev pub Deleting : Bytes → Progress → Call → Type 0
Deleting path m (local_remove p) = (m ≡ begun) × (p ≡ path)
Deleting path m (local_lstat p) = (m ≡ begun) × (p ≡ path)
Deleting path m (store_delete p) = (m ≡ settled) × (p ≡ path)
Deleting path m (audit e) = m ≡ forgotten
Deleting path m _ = ⊥

abbrev pub deletion : Bytes → Monitor Progress
deletion path = record { step = progress; allowed = Deleting path }
