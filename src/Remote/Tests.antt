-- ===== src/Remote/Tests.antt =====
-- A small remote and a poll of two pages, and the theorems at such data.
mod Rclone
use home_drive.Base.{ℕ, zero, suc, ◌≡◌, refl, ◌↔◌, Bool, true, false, none, some, [], ◌∷◌, inl}
use home_drive.Base.Text.{Bytes, codes, bytes_eq}
use home_drive.Base.Maps.{store}
use home_drive.Syncer.Types.{RemoteObject}
use home_drive.Store.Bucket.{Among}
use home_drive.Remote.Changes.{
  DriveChange, PageAnswer, page, page_failed, other, poll_changes, translate_change, translate_file,
  resolve_change_path, cache_put, object_of, parse_drive_time,
}
use home_drive.Remote.Changes.Pages.{Returns, poll_changes-Returns}
use home_drive.Remote.Walk.{Listing, end, more, object, directory, change_of, list_recursive, visit}
use home_drive.Remote.Walk.Complete.{Lists, list_recursive-Lists}
use home_drive.Remote.RootId.{quote, backslash, child_query, folder_condition}
use home_drive.Remote.RootId.Quoted.{read_literal, child_query-Quoted}
use home_drive.Base.{◌++◌, drop, ◌+◌, List, arith}
use home_drive.Base.Int.{pos}
use home_drive.Base.Text.{last_index, has_prefix}
use home_drive.Base.Maps.{lookup, erase}
use home_drive.OldSuffix.Decimal.{itoa}
use home_drive.Syncer.Go.{ok, fail}
use home_drive.Remote.Changes.{join}
use home_drive.Remote.MemFs.{
  new_mem_fs, Disk, mem_fs, list_changes, changes_from, scan_int, not_found_error, copy_file,
  copied, delete_file, move_file, path_base,
}
use home_drive.Remote.MemFs.Refines.{Command, copy, move, delete, run, perform}
use home_drive.Remote.MemFs.Resumes.{add_changes, list_changes-Resumes}
use home_drive.Remote.Doubles.{
  RemoteCall, copies, deletes, lists_changes, asks_token, answer, answers, dry_run_fs, flaky_fs,
  FlakyRule, Context, Reply, rule_applies, execute_action,
}
use home_drive.Remote.Doubles.Frozen.{of_reads, answers-Frozen}
use home_drive.Remote.Doubles.Injected.{call-Injected}

abbrev remote_file : Bytes → RemoteObject
remote_file p = record {
  path = p;
  size = 3;
  mod_time = 5;
  md5 = [];
  remote_id = codes "id";
  is_dir = false;
}

-- A file in a directory, and an excluded one beside it.
abbrev root : Listing
root =
    more (directory (codes "d1") (codes "d") (more (object (remote_file (codes "d/f"))) end))
      (more (object (remote_file (codes "tmp"))) end)

abbrev skips : Bytes → Bool
skips p = bytes_eq p (codes "tmp")

complete :
    (list_recursive skips root (record { cache = []; items = []; error = none })).error ≡ none
unfolding list_recursive visit cache_put store bytes_eq
complete = refl

walked :
    (list_recursive skips root (record { cache = []; items = []; error = none })).items
    ≡ change_of (remote_file (codes "d/f")) ∷ []
unfolding list_recursive visit cache_put store bytes_eq
walked = refl

list_recursive-Lists_example :
    Among
      (change_of (remote_file (codes "d/f")))
      (list_recursive skips root (record { cache = []; items = []; error = none })).items
    ↔ Lists skips root (remote_file (codes "d/f"))
list_recursive-Lists_example =
    list_recursive-Lists skips root [] (remote_file (codes "d/f")) complete

-- Two pages, and errors after them.
abbrev pages : ℕ → Bytes → PageAnswer
pages zero t = page [] [] (codes "2")
pages (suc zero) t = page [] (codes "9") []
pages (suc (suc n)) t = page_failed other

poll_changes-Returns_example : Returns (poll_changes skips true pages 2 (codes "1") [])
poll_changes-Returns_example =
    poll_changes-Returns skips true pages 1 (codes "1") [] (λ t. inl refl)

-- A file that is known as `a` and is now `b`: the one change that comes of it does not name `a`.
abbrev renamed : DriveChange
renamed = record {
  file_id = codes "x";
  removed = false;
  file = some (record {
    name = codes "b";
    parents = [];
    trashed = false;
    size = 1;
    modified = none;
    md5 = [];
    is_folder = false;
  });
}

new_name_only :
    (translate_change skips ((codes "x", codes "a") ∷ []) renamed).1
    ≡ some (
        change_of
          (record (remote_file (codes "b")) { size = 1; mod_time = 0; remote_id = codes "x" }))
unfolding translate_change translate_file resolve_change_path cache_put store object_of
    parse_drive_time bytes_eq
new_name_only = refl

abbrev ignored : Disk ℕ
ignored = record {
  mkdir_parent = λ p d. (none, d + 1);
  write_file = λ p text d. (none, d + 1);
  chtimes = λ p t d. (none, d + 1);
}

abbrev moves_and_deletes : List Command
moves_and_deletes =
    copy 9 (codes "/r/a") (codes "d")
    ∷ move (codes "d/a") (codes "b")
    ∷ move (codes "d/a") (codes "c")
    ∷ delete (codes "b")
    ∷ []

moved_and_deleted :
    (run moves_and_deletes new_mem_fs).0 ≡ none ∷ none ∷ some not_found_error ∷ none ∷ []
unfolding run perform copy_file copied delete_file move_file path_base join last_index has_prefix
    lookup store erase bytes_eq
moved_and_deleted = refl

-- The token that `MemFS` starts with is not one that its `ListChanges` reads.
start_token_unread : list_changes (codes "start") new_mem_fs ≡ some (fail (record { wraps = [] }))
unfolding list_changes changes_from scan_int
start_token_unread = refl

list_changes-Resumes_example :
    (list_changes [] new_mem_fs ≡ some (ok (record { items = []; next_page_token = itoa 0 })))
    × (list_changes (itoa 0) (add_changes (change_of (remote_file (codes "a")) ∷ []) new_mem_fs)
        ≡ some (
            ok (record {
              items = change_of (remote_file (codes "a")) ∷ [];
              next_page_token = itoa 1;
            })))
list_changes-Resumes_example =
    list_changes-Resumes new_mem_fs (change_of (remote_file (codes "a")) ∷ []) (omega arith)

abbrev asked : List RemoteCall
asked = copies (codes "/r/a") [] ∷ lists_changes [] ∷ deletes (codes "a") ∷ asks_token ∷ []

answers-Frozen_example :
    of_reads asked (answers (dry_run_fs (mem_fs ignored 9)) asked (new_mem_fs, 0))
    ≡ answers (mem_fs ignored 9) (lists_changes [] ∷ asks_token ∷ []) (new_mem_fs, 0)
answers-Frozen_example = answers-Frozen (mem_fs ignored 9) asked (new_mem_fs, 0)

abbrev on_upload : FlakyRule
on_upload = record {
  method = codes "CopyFile";
  matches = none;
  action = record { err = some not_found_error; delay = pos 0; timeout = false };
}

abbrev on_delete : FlakyRule
on_delete = record on_upload { method = codes "DeleteFile" }

abbrev no_hurry : Context
no_hurry = record { err = record { wraps = [] }; done_before = λ d. false }

call-Injected_example :
    (answer
        (flaky_fs no_hurry (on_upload ∷ []) (mem_fs ignored 9))
        (deletes (codes "a"))
        (new_mem_fs, 0)
      ≡ answer (mem_fs ignored 9) (deletes (codes "a")) (new_mem_fs, 0))
    × (true ≡ true
        → answer
            (flaky_fs no_hurry (on_upload ∷ on_delete ∷ []) (mem_fs ignored 9))
            (deletes (codes "a"))
            (new_mem_fs, 0)
          ≡ some (Reply.error (some not_found_error), (new_mem_fs, 0)))
unfolding rule_applies bytes_eq execute_action
call-Injected_example =
    call-Injected no_hurry (mem_fs ignored 9) (on_upload ∷ []) [] on_delete (deletes (codes "a"))
      (new_mem_fs, 0) (refl, tt)

-- A name with a quote and a backslash.
abbrev odd_name : Bytes
odd_name = codes "O" ++ (quote ∷ codes "Brien" ++ (backslash ∷ codes "x"))

child_query-Quoted_example :
    read_literal false (drop 8 (child_query odd_name (codes "root")))
    ≡ some (odd_name, folder_condition (codes "root"))
child_query-Quoted_example = child_query-Quoted odd_name (codes "root")
