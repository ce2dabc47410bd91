-- ===== src/Remote/Changes.antt =====
-- internal/rcloneclient/driveapi.go with idpathcache.go and oauthstatus.go: changes of Drive by
-- their ids, translated to paths. The path of a change is joined from clean parts.
pub mod Pages
use home_drive.Base.{
  ℕ, zero, suc, ◌+◌, Bool, true, false, not, ◌==◌, Option, none, some, List, [], ◌∷◌, ◌++◌,
  is_empty, if◌then◌else◌,
}
use home_drive.Base.Text.{Bytes}
use home_drive.Base.Time.{Time}
use home_drive.Base.Maps.{Map, lookup, store}
use home_drive.Syncer.Types.{
  Error, RemoteObject, Change, Changes, gone, token_rejected, oauth_client_missing,
}
use home_drive.Syncer.Go.{Result, ok, fail}

-- A file of Drive; `modified` is `none` where its text is not a time.
pub record DriveFile : Type 0 where
  pub name : Bytes
  pub parents : List Bytes
  pub trashed : Bool
  pub size : ℕ
  pub modified : Option Time
  pub md5 : Bytes
  pub is_folder : Bool

pub record DriveChange : Type 0 where
  pub file_id : Bytes
  pub removed : Bool
  pub file : Option DriveFile

abbrev pub Cache : Type 0
Cache = Map Bytes

unfoldable pub cache_get : Cache → Bytes → Option Bytes
cache_get c id = if is_empty id then none else lookup id c

unfoldable pub cache_put : Bytes → Bytes → Cache → Cache
cache_put id path c = if is_empty id then c else store id path c

unfoldable pub parse_drive_time : Option Time → Time
parse_drive_time none = 0
parse_drive_time (some t) = t

unfoldable pub join : Bytes → Bytes → Bytes
join dir name = if is_empty dir then name else dir ++ (b'/' ∷ name)

unfoldable pub resolve_change_path : Cache → DriveFile → Option Bytes
resolve_change_path c f = elim f.parents [
  | [] ↦ some f.name
  | p ∷ _ ↦ elim (cache_get c p) [ none ↦ none | some dir ↦ some (join dir f.name) ]
]

abbrev pub deletion : Bytes → Change
deletion p = record { path = p; deleted = true; object = none }

unfoldable pub object_of : DriveChange → DriveFile → Bytes → RemoteObject
object_of ch f p = record {
  path = p;
  size = f.size;
  mod_time = parse_drive_time f.modified;
  md5 = f.md5;
  remote_id = ch.file_id;
  is_dir = f.is_folder;
}

module _ (excluded : Bytes → Bool) where
  unfoldable pub translate_removed : Cache → DriveChange → Cache × Option Change
  translate_removed c ch = elim (cache_get c ch.file_id) [
    | none ↦ (c, none)
    | some p ↦ (c, if excluded p then none else some (deletion p))
  ]

  unfoldable pub translate_file : Cache → DriveChange → DriveFile → Cache × Option Change
  translate_file c ch f = elim (resolve_change_path c f) [
    | none ↦ (c, none)
    | some p ↦ if excluded p then (c, none) else if f.trashed then (c, some (deletion p)) else (
      cache_put ch.file_id p c,
      some (record { path = p; deleted = false; object = some (object_of ch f p) }),
    )
  ]

  unfoldable pub translate_change : Cache → DriveChange → Cache × Option Change
  translate_change c ch = elim ch.file [
    | none ↦ translate_removed c ch
    | some f ↦ if ch.removed then translate_removed c ch else translate_file c ch f
  ]

  unfoldable pub translated : Option Change → List Change
  translated none = []
  translated (some ch) = ch ∷ []

  -- The loop over the changes of a page.
  unfoldable pub translate_all : Cache → List DriveChange → Cache × List Change
  translate_all c [] = (c, [])
  translate_all c (ch ∷ chs) =
      let first = translate_change c ch in
      let rest = translate_all first.0 chs in (rest.0, translated first.1 ++ rest.1)

-- An error of `changes.list`: the code of a Drive error, or a failed refresh of the OAuth token.
pub data DriveError : Type 0 where
  status : ℕ → DriveError
  retrieve_failed other : DriveError

-- `error_of` for a remote whose OAuth client is configured or not.
unfoldable pub classify : Bool → DriveError → Error
classify configured (status code) =
    if code == 410
    then record { wraps = gone ∷ [] }
    else if code == 400
    then record { wraps = gone ∷ token_rejected ∷ [] }
    else record { wraps = [] }
classify configured retrieve_failed =
    if configured then record { wraps = [] } else record { wraps = oauth_client_missing ∷ [] }
classify configured other = record { wraps = [] }

-- A page, with its new start token and its next page token; "" is none.
pub data PageAnswer : Type 0 where
  page_failed : DriveError → PageAnswer
  page : List DriveChange → Bytes → Bytes → PageAnswer

-- The result of a poll, with the cache after it.
abbrev pub Polled : Type 0
Polled = Cache × Result Changes

abbrev finished : Cache → List Change → Bytes → Polled
finished c items token = (c, ok (record { items = items; next_page_token = token }))

-- The loop of `pollChanges` on fuel; `answer i t` is what the `i`-th call with token `t` returns.
module _ (excluded : Bytes → Bool) (configured : Bool) (answer : ℕ → Bytes → PageAnswer) where
  unfoldable pub poll_pages : ℕ → ℕ → Bytes → Cache → List Change → Option Polled
  poll_pages zero i token c items = none
  poll_pages (suc fuel) i token c items = elim (answer i token) [
    | page_failed e ↦ some (c, fail (classify configured e))
    | page chs new_start next ↦
        let r = translate_all excluded c chs in
        elim (is_empty new_start) [
          | false ↦ some (finished r.0 (items ++ r.1) new_start)
          | true ↦ elim (is_empty next) [
            | false ↦ poll_pages fuel (i + 1) next r.0 (items ++ r.1)
            | true ↦ some (finished r.0 (items ++ r.1) token)
          ]
        ]
  ]

  unfoldable pub poll_changes : ℕ → Bytes → Cache → Option Polled
  poll_changes fuel token c = poll_pages fuel 0 token c []
