-- ===== src/Syncer/Pull/Detect.antt =====
-- When a remote change is a conflict, and when it is in sync.
use home_drive.Base.{
  ◌≡◌, ◌≢◌, refl, ◌+◌, ◌^◌, ◌<◌, ◌⊎◌, inl, inr, Bool, true, false, none, some, Bool-cases, arith,
  ltb, ◌||◌, if◌then◌else◌,
}
use home_drive.Base.Text.{Bytes, bytes_eq, bytes_eq_iff}
use home_drive.Base.Time.{Time, second, within_second}
use home_drive.Syncer.Types.{JournalEntry, RemoteObject, FileInfo}
use home_drive.Syncer.Pull.{PullerConfig, conflict_mtime}

-- More than a second apart, by the difference of two times as an int64 holds it.
abbrev pub Apart : Time → Time → Type 0
Apart a b = (b + second < a) ⊎ ((a + second < b) × (b < a + 2 ^ 63))

within_second-Apart : (a b : Time) → within_second a b ≡ false → Apart a b
unfolding within_second
within_second-Apart a b h = elim (Bool-cases (ltb (b + second) a)) [
  | inl far ↦ inl (ground (arith, far))
  | inr near ↦ inr (ground (arith, near, h), ground (arith, near, h))
]

Apart-within_second : (a b : Time) → Apart a b → within_second a b ≡ false
unfolding within_second
Apart-within_second a b (inl far) = ground (arith, far)
Apart-within_second a b (inr (far, near)) = ground (arith, far, near)

neither :
    (x y : Bool) (u t : Time)
    → (if x || y then none else some u) ≡ some t
    → (x ≡ false) × (y ≡ false)
neither true y u t e = absurd (cc e)
neither false true u t e = absurd (cc e)
neither false false u t e = (refl, refl)

differ : (a b : Bytes) → a ≢ b → bytes_eq a b ≡ false
differ a b h = elim (Bool-cases (bytes_eq a b)) [
  | inl e ↦ absurd (h ((bytes_eq_iff a b).0 e))
  | inr e ↦ e
]

differ_back : (a b : Bytes) → bytes_eq a b ≡ false → a ≢ b
differ_back a b e same = absurd (cc (e, (bytes_eq_iff a b).1 same))

module _ (cfg : PullerConfig) (journal : JournalEntry) (obj : RemoteObject) (info : FileInfo) where
  -- A remote change of a path is a conflict, with the mtime of the local file, exactly if the
  -- checksum differs from the one in the journal and the mtime of the local file differs from the
  -- one in the journal by more than a second, where a local mtime that lies 2^63 ns or more before
  -- the other does not count as different.
  pub conflict_mtime_lem :
      ((obj.md5 ≢ journal.remote_md5) × Apart info.mod_time journal.local_mtime
        → conflict_mtime cfg journal obj info ≡ some info.mod_time)
      × ((t : Time)
          → conflict_mtime cfg journal obj info ≡ some t
          → (obj.md5 ≢ journal.remote_md5) × Apart info.mod_time journal.local_mtime)
  unfolding conflict_mtime
  conflict_mtime_lem = (
    (λ (d, a). rw (differ obj.md5 journal.remote_md5 d, Apart-within_second _ _ a) refl),
    λ t e.
        let (d, w) = neither _ _ info.mod_time t e in
        (differ_back obj.md5 journal.remote_md5 d, within_second-Apart _ _ w),
  )
