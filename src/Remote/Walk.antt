-- ===== src/Remote/Walk.antt =====
-- internal/rcloneclient/rclonefs.go: the full walk of the remote with the page token around it, and
-- the listing of one directory. What rclone lists is a tree.
pub mod Complete
use home_drive.Base.{
  Bool, true, false, ◌||◌, Option, none, some, List, [], ◌∷◌, ◌++◌, length, drop, is_empty,
  if◌then◌else◌,
}
use home_drive.Base.Text.{Bytes, codes, has_prefix}
use home_drive.Syncer.Types.{Error, RemoteObject, Change, Changes}
use home_drive.Syncer.Go.{Result, ok, fail}
use home_drive.Remote.Changes.{Cache, cache_put, Polled, poll_changes}

-- The entries of a directory: an object, or a directory with its id, its path and what its listing
-- returns; `unlisted` is an error of it.
mutual
  pub data Entry : Type 0 where
    object : RemoteObject → Entry
    directory : Bytes → Bytes → Listing → Entry

  pub data Listing : Type 0 where
    unlisted : Error → Listing
    end : Listing
    more : Entry → Listing → Listing

abbrev pub initial_sync_prefix : Bytes
initial_sync_prefix = codes "initial_sync:"

abbrev pub change_of : RemoteObject → Change
change_of o = record { path = o.path; deleted = false; object = some o }

-- The cache and the items so far, with the error that ends a walk.
pub record Walked : Type 0 where
  pub cache : Cache
  pub items : List Change
  pub error : Option Error

module _ (excluded : Bytes → Bool) where
  unfoldable mutual
    pub visit : Entry → Walked → Walked
    visit (object o) w = if excluded o.path then w else record w {
      cache = cache_put o.remote_id o.path w.cache;
      items = w.items ++ change_of o ∷ [];
    }
    visit (directory id path below) w =
        let seen : Walked = record w { cache = cache_put id path w.cache } in
        let inside = list_recursive below seen in if excluded path then seen else inside

    -- A walk that has an error goes no further.
    pub list_recursive : Listing → Walked → Walked
    list_recursive (unlisted e) w = record w { error = some e }
    list_recursive end w = w
    list_recursive (more e rest) w =
        let first = visit e w in
        elim first.error [ some x ↦ first | none ↦ list_recursive rest first ]

-- `strings.TrimPrefix` of the mark.
unfoldable pub unmarked : Bytes → Bytes
unmarked token =
    if has_prefix token initial_sync_prefix then drop (length initial_sync_prefix) token else token

-- With the answer of `changes.getStartPageToken`.
unfoldable pub start_page_token : Result Bytes → Result Bytes
start_page_token (fail e) = fail e
start_page_token (ok t) = ok (initial_sync_prefix ++ t)

module _ (excluded : Bytes → Bool) (root : Listing) where
  unfoldable pub walk_with : Bytes → Cache → Cache × Result Changes
  walk_with token c =
      let w = list_recursive excluded root (record { cache = c; items = []; error = none }) in
      elim w.error [
        | some e ↦ (w.cache, fail e)
        | none ↦ (w.cache, ok (record { items = w.items; next_page_token = token }))
      ]

  unfoldable pub full_walk_then_resume : Result Bytes → Bytes → Cache → Cache × Result Changes
  full_walk_then_resume minted token c =
      if is_empty token
      then elim (start_page_token minted) [ fail e ↦ (c, fail e) | ok t ↦ walk_with (unmarked t) c ]
      else walk_with token c

  -- With the poll of a token as it goes on.
  unfoldable pub list_changes : Result Bytes → (Bytes → Cache → Polled) → Bytes → Cache → Polled
  list_changes minted poll token c =
      if is_empty token || has_prefix token initial_sync_prefix
      then full_walk_then_resume minted (unmarked token) c
      else poll token c

-- `List`: the objects of the directory itself.
unfoldable pub list : Listing → Result (List RemoteObject)
list (unlisted e) = fail e
list end = ok []
list (more (directory id path below) rest) = list rest
list (more (object o) rest) =
    let others = list rest in elim others [ fail e ↦ fail e | ok os ↦ ok (o ∷ os) ]
