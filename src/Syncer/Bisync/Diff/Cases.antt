-- ===== src/Syncer/Bisync/Diff/Cases.antt =====
-- When bisync sees a file with a journal entry as changed.
use home_drive.Base.{◌≡◌, refl, Bool, true, false, not, ◌||◌, ◌==◌, ==_iff, some, ◌↔◌}
use home_drive.Base.Text.{bytes_eq, bytes_eq_iff}
use home_drive.Base.Time.{Time}
use home_drive.Syncer.Types.{RemoteObject, LocalFileInfo}
use home_drive.Syncer.Go.{ok}
use home_drive.Syncer.Bisync.Diff.{diverges}
use home_drive.Syncer.Bisync.Resolve.{pushed_entry}

pub neither :
    (a b c : Bool) → (not a || (not b || not c) ≡ false) ↔ (a ≡ true) × ((b ≡ true) × (c ≡ true))
neither true true true = (λ _. (refl, (refl, refl)), λ _. refl)
neither true true false = (λ e. cc e, λ (p, (q, r)). cc r)
neither true false c = (λ e. cc e, λ (p, (q, r)). cc q)
neither false b c = (λ e. cc e, λ (p, q). cc p)

-- With the entry that a push by bisync writes, bisync finds the file unchanged exactly while the
-- local time is the one that was pushed, and the checksum and the time of the remote are those
-- that the upload returned.
diverges-pushed_entry :
    (l l' : LocalFileInfo) (r r' : RemoteObject) (now : Time)
    → (diverges (ok (some (pushed_entry l r now))) l' r' ≡ false)
      ↔ (l'.mod_time ≡ l.mod_time) × ((r'.md5 ≡ r.md5) × (r'.mod_time ≡ r.mod_time))
unfolding diverges
diverges-pushed_entry l l' r r' now =
    let (to, from) =
      neither (l'.mod_time == l.mod_time) (bytes_eq r'.md5 r.md5) (r'.mod_time == r.mod_time) in
    let (t1, f1) = ==_iff l'.mod_time l.mod_time in
    let (t2, f2) = bytes_eq_iff r'.md5 r.md5 in
    let (t3, f3) = ==_iff r'.mod_time r.mod_time in
    (
      (λ e. let (a, (b, c)) = to e in (t1 a, (t2 b, t3 c))),
      (λ (a, (b, c)). from (f1 a, (f2 b, f3 c))),
    )
