-- ===== src/Remote/RootId.antt =====
-- internal/rcloneclient/rootid.go: the Drive id of the root, found folder by folder.
pub mod Quoted
use home_drive.Base.{
  ℕ, Bool, true, false, ◌||◌, ◌==◌, Option, none, some, List, [], ◌∷◌, ◌++◌, is_empty,
  if◌then◌else◌,
}
use home_drive.Base.Text.{Bytes, codes, bytes_eq}
use home_drive.Syncer.Types.{Error}
use home_drive.Syncer.Go.{Result, ok, fail}
use home_drive.Remote.Changes.{Cache, cache_put}

-- A backslash and a single quote.
abbrev pub backslash : ℕ
backslash = 92

abbrev pub quote : ℕ
quote = 39

-- `strings.ReplaceAll` of a byte by a backslash and the byte.
unfoldable pub escape_byte : ℕ → Bytes → Bytes
escape_byte x [] = []
escape_byte x (c ∷ s) =
    let rest = escape_byte x s in if c == x then backslash ∷ c ∷ rest else c ∷ rest

unfoldable pub escape_drive_query_value : Bytes → Bytes
escape_drive_query_value s = escape_byte quote (escape_byte backslash s)

-- What follows the name in the query.
abbrev pub folder_condition : Bytes → Bytes
folder_condition parent =
    codes " and '"
    ++ (parent
        ++ codes
            "' in parents and mimeType = 'application/vnd.google-apps.folder' and trashed = false")

unfoldable pub child_query : Bytes → Bytes → Bytes
child_query name parent =
    codes "name = '" ++ (escape_drive_query_value name ++ (quote ∷ folder_condition parent))

unfoldable pub trim_slashes_left : Bytes → Bytes
trim_slashes_left [] = []
trim_slashes_left (c ∷ s) = let rest = trim_slashes_left s in if c == b'/' then rest else c ∷ s

unfoldable pub all_slashes : Bytes → Bool
all_slashes [] = true
all_slashes (c ∷ s) = let rest = all_slashes s in if c == b'/' then rest else false

unfoldable pub trim_slashes_right : Bytes → Bytes
unfolding all_slashes
trim_slashes_right [] = []
trim_slashes_right (c ∷ s) =
    let rest = trim_slashes_right s in if all_slashes (c ∷ s) then [] else c ∷ rest

-- `strings.Trim(s, "/")`
unfoldable pub trim_slashes : Bytes → Bytes
unfolding trim_slashes_left trim_slashes_right
trim_slashes s = trim_slashes_right (trim_slashes_left s)

-- `strings.Split(s, "/")`
unfoldable pub split_slash : Bytes → Bytes → List Bytes
split_slash current [] = current ∷ []
split_slash current (c ∷ s) = elim (c == b'/') [
  | true ↦ current ∷ split_slash [] s
  | false ↦ split_slash (current ++ c ∷ []) s
]

abbrev pub any_error : Error
any_error = record { wraps = [] }

-- The id of My Drive, and the ids of the files that a query finds.
pub record Drive : Type 0 where
  pub root_file : Result Bytes
  pub find : Bytes → Result (List Bytes)

unfoldable pub first_id : Result (List Bytes) → Result Bytes
first_id (fail e) = fail e
first_id (ok []) = fail any_error
first_id (ok (id ∷ ids)) = ok id

module _ (drive : Drive) where
  unfoldable pub find_child_folder_id : Bytes → Bytes → Result Bytes
  find_child_folder_id parent name = first_id (drive.find (child_query name parent))

  -- The loop over the segments, with the id so far.
  unfoldable pub resolve_segments : Bytes → List Bytes → Result Bytes
  resolve_segments id [] = ok id
  resolve_segments id (seg ∷ segs) = elim (find_child_folder_id id seg) [
    | fail e ↦ fail e
    | ok found ↦ resolve_segments found segs
  ]

  unfoldable pub resolve_root_id : Bytes → Result Bytes
  resolve_root_id root =
      let rel = trim_slashes root in
      if is_empty rel || bytes_eq rel (codes ".")
      then drive.root_file
      else resolve_segments (codes "root") (split_slash [] rel)

  -- On the id that is kept and the cache of paths, with the error.
  unfoldable pub ensure_root_id : Bytes → Bytes × Cache → Option Error × (Bytes × Cache)
  ensure_root_id root (root_id, cache) =
      if is_empty root_id
      then elim (resolve_root_id root) [
        | fail e ↦ (some e, (root_id, cache))
        | ok id ↦ (none, (id, cache_put id [] cache))
      ]
      else (none, (root_id, cache))
