-- ===== src/Remote/MemFs.antt =====
-- internal/rcloneclient/memfs.go: the remote side in memory. Each method holds the lock. Paths are
-- clean and relative; sizes and the used quota are int64 as bit patterns.
pub mod Refines
pub mod Resumes
use home_drive.Base.{
  ℕ, zero, suc, ◌+◌, ◌-◌, ◌%◌, ◌^◌, ◌==◌, Bool, true, false, not, ◌||◌, Option, none, some, List,
  [], ◌∷◌, ◌++◌, is_empty, length, drop, ltb, leb, if◌then◌else◌,
}
use home_drive.Base.Int.{ℤ, pos, negsuc}
use home_drive.Base.Text.{Bytes, codes, bytes_eq, last_index}
use home_drive.Base.Time.{Time}
use home_drive.Base.Maps.{Map, lookup, store, erase}
use home_drive.OldSuffix.Decimal.{itoa, is_digit, value}
use home_drive.Syncer.Types.{Error, not_found, RemoteObject, Change, Changes}
use home_drive.Syncer.Go.{Result, ok, fail}
use home_drive.Syncer.Conflict.{remote_dir}
use home_drive.Quota.{QuotaInfo}
use home_drive.Remote.Changes.{join}
use home_drive.Remote.Fs.{RemoteFs}

pub record MemFs : Type 0 where
  pub files : Map RemoteObject
  pub changes : List Change
  pub used : ℕ
  pub total : ℕ
  pub id_seq : ℕ
  pub start_token : Bytes

abbrev pub new_mem_fs : MemFs
new_mem_fs = record {
  files = [];
  changes = [];
  used = 0;
  total = 16_106_127_360;
  id_seq = 0;
  start_token = codes "start";
}

-- An int64 from its bit pattern.
unfoldable pub signed : ℕ → ℤ
signed n = if ltb n (2 ^ 63) then pos n else negsuc (2 ^ 64 - n - 1)

-- `path.Base` of a clean path that is not empty.
unfoldable pub path_base : Bytes → Bytes
path_base p = elim (last_index p (b'/' ∷ [])) [ none ↦ p | some i ↦ drop (suc i) p ]

abbrev pub numbered : Bytes → ℕ → Bytes
numbered name n = name ++ itoa n

unfoldable pub seed_with_size : Bytes → Time → Bytes → ℕ → MemFs → MemFs
seed_with_size p mtime md5 size m = record m {
  id_seq = m.id_seq + 1;
  files =
      store p
        (record {
          path = p;
          size = size;
          mod_time = mtime;
          md5 = md5;
          remote_id = numbered (codes "id-") (m.id_seq + 1);
          is_dir = false;
        })
        m.files;
}

unfoldable pub seed : Bytes → Time → Bytes → MemFs → MemFs
seed p mtime md5 m = seed_with_size p mtime md5 1024 m

unfoldable pub set_quota : ℕ → ℕ → MemFs → MemFs
set_quota used total m = record m { used = used; total = total }

unfoldable pub set_start_page_token : Bytes → MemFs → MemFs
set_start_page_token token m = record m { start_token = token }

unfoldable pub add_change : Change → MemFs → MemFs
add_change c m = record m { changes = m.changes ++ c ∷ [] }

-- What `Now` of the clock returns is an argument.
unfoldable pub copied : Time → Bytes → ℕ → RemoteObject
copied now p n = record {
  path = p;
  size = 1024;
  mod_time = now;
  md5 = numbered (codes "md5-") n;
  remote_id = numbered (codes "id-") n;
  is_dir = false;
}

unfoldable pub copy_file : Time → Bytes → Bytes → MemFs → Result RemoteObject × MemFs
copy_file now src dst_dir m =
    let p = join dst_dir (path_base src) in
    let obj = copied now p (m.id_seq + 1) in
    (
      ok obj,
      record m {
        id_seq = m.id_seq + 1;
        files = store p obj m.files;
        used = (m.used + 1024) % 2 ^ 64;
      },
    )

abbrev pub not_found_error : Error
not_found_error = record { wraps = not_found ∷ [] }

-- `ErrAlreadyExists`, for which no caller looks.
abbrev pub already_exists_error : Error
already_exists_error = record { wraps = [] }

unfoldable pub delete_file : Bytes → MemFs → Option Error × MemFs
delete_file p m = elim (lookup p m.files) [
  | none ↦ (some not_found_error, m)
  | some obj ↦ (
    none,
    record m { used = (m.used + 2 ^ 64 - obj.size % 2 ^ 64) % 2 ^ 64; files = erase p m.files },
  )
]

unfoldable pub move_file : Bytes → Bytes → MemFs → Option Error × MemFs
move_file src dst m = elim (lookup src m.files) [
  | none ↦ (some not_found_error, m)
  | some obj ↦ elim (lookup dst m.files) [
    | some other ↦ (some already_exists_error, m)
    | none ↦ (none, record m { files = erase src (store dst (record obj { path = dst }) m.files) })
  ]
]

unfoldable pub stat : Bytes → MemFs → Result RemoteObject × MemFs
stat p m = elim (lookup p m.files) [ none ↦ (fail not_found_error, m) | some obj ↦ (ok obj, m) ]

unfoldable pub listed : Bytes → Map RemoteObject → List RemoteObject
listed dir [] = []
listed dir ((p, obj) ∷ rest) =
    let more = listed dir rest in if bytes_eq (remote_dir p) dir then obj ∷ more else more

unfoldable pub list : Bytes → MemFs → Result (List RemoteObject) × MemFs
list dir m = (ok (listed dir m.files), m)

unfoldable pub leading_digits : Bytes → Bytes
leading_digits [] = []
leading_digits (c ∷ s) = let more = leading_digits s in if is_digit c then c ∷ more else []

unfoldable pub scan_digits : ℕ → Bytes → Option ℕ
unfolding leading_digits is_digit value
scan_digits limit s =
    let digits = leading_digits s in
    if is_empty digits
    then none
    else if ltb (value 0 digits) limit
    then some (value 0 digits)
    else none

unfoldable pub negated : ℕ → ℤ
negated zero = pos 0
negated (suc n) = negsuc n

-- `fmt.Sscanf(s, "%d", &n)` for an int64, of a text that does not begin with a space; what follows
-- the number is not read. `none` is an error.
unfoldable pub scan_int : Bytes → Option ℤ
unfolding scan_digits negated
scan_int [] = none
scan_int (c ∷ s) =
    if c == b'-'
    then elim (scan_digits (2 ^ 63 + 1) s) [ none ↦ none | some n ↦ some (negated n) ]
    else if c == b'+'
    then elim (scan_digits (2 ^ 63) s) [ none ↦ none | some n ↦ some (pos n) ]
    else elim (scan_digits (2 ^ 63) (c ∷ s)) [ none ↦ none | some n ↦ some (pos n) ]

unfoldable pub changes_from : MemFs → Option ℤ → Option (Result Changes)
changes_from m none = some (fail (record { wraps = [] }))
changes_from m (some (negsuc n)) = none
changes_from m (some (pos i)) = some (
    ok (record {
      items = if leb (length m.changes) i then [] else drop i m.changes;
      next_page_token = itoa (length m.changes);
    }))

-- `none` is the panic of a slice from a negative index.
unfoldable pub list_changes : Bytes → MemFs → Option (Result Changes)
list_changes token m =
    if is_empty token then changes_from m (some (pos 0)) else changes_from m (scan_int token)

unfoldable pub quota : MemFs → Result QuotaInfo × MemFs
quota m = (ok (record { used = signed m.used; total = signed m.total }), m)

unfoldable pub get_start_page_token : MemFs → Result Bytes × MemFs
get_start_page_token m = (ok m.start_token, m)

-- The local files that a download writes to: `os.MkdirAll` of the parent, `os.WriteFile` and
-- `os.Chtimes`.
pub record Disk (D : Type 0) : Type 0 where
  pub mkdir_parent : Bytes → D → Option Error × D
  pub write_file : Bytes → Bytes → D → Option Error × D
  pub chtimes : Bytes → Time → D → Option Error × D

module _ {D : Type 0} (disk : Disk D) where
  -- The next call, unless there was an error.
  abbrev and_then : Option Error × D → (D → Option Error × D) → Option Error × D
  and_then (none, d) k = k d
  and_then (some e, d) k = (some e, d)

  unfoldable pub written : RemoteObject → Bytes → Bytes → D → Option Error × D
  written obj remote_path local_path d = and_then (disk.mkdir_parent local_path d) λ d.
      and_then (disk.write_file local_path (codes "content-of-" ++ remote_path) d)
        λ d. if obj.mod_time == 0 then (none, d) else disk.chtimes local_path obj.mod_time d

  unfoldable pub download_file : Bytes → Bytes → MemFs × D → Option Error × (MemFs × D)
  download_file remote_path local_path (m, d) = elim (lookup remote_path m.files) [
    | none ↦ (some not_found_error, (m, d))
    | some obj ↦ let r = written obj remote_path local_path d in (r.0, (m, r.1))
  ]

  -- `MemFS` as a `RemoteFS`, at a time of its clock.
  unfoldable pub mem_fs : Time → RemoteFs (MemFs × D)
  mem_fs now = record {
    copy_file = λ src dst (m, d). let r = copy_file now src dst m in (r.0, (r.1, d));
    delete_file = λ p (m, d). let r = delete_file p m in (r.0, (r.1, d));
    move_file = λ src dst (m, d). let r = move_file src dst m in (r.0, (r.1, d));
    stat = λ p (m, d). let r = stat p m in (r.0, (r.1, d));
    list = λ dir (m, d). let r = list dir m in (r.0, (r.1, d));
    list_changes = λ t (m, d). elim (list_changes t m) [ none ↦ none | some r ↦ some (r, (m, d)) ];
    get_start_page_token = λ (m, d). let r = get_start_page_token m in (r.0, (r.1, d));
    download_file = download_file;
    quota = λ (m, d). let r = quota m in (r.0, (r.1, d));
  }
