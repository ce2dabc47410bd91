-- ===== src/Store/Journal.antt =====
-- internal/store/journal.go: the journal in a bucket of bbolt, and the texts in the meta bucket,
-- which is there once the journal was opened. An error of bbolt is `none`.
pub mod Reads
use home_drive.Base.{ℕ, Bool, true, false, Option, none, some, List, [], ◌∷◌, if◌then◌else◌}
use mathlib.Core.Option
use home_drive.Base.Text.{Bytes, codes, has_prefix}
use home_drive.OldSuffix.{Matcher, next_old_n}
use home_drive.Syncer.Types.{JournalEntry}
use home_drive.Store.Bucket.{Bucket, Json}

-- `ErrNotFound`, an error of `Unmarshal`, or the entry.
pub data Answer : Type 0 where
  not_found unreadable : Answer
  entry : JournalEntry → Answer

module _ {B V : Type 0} (bk : Bucket B V) (js : Json V) where
  unfoldable pub put : B → JournalEntry → Option B
  put b e = elim (js.marshal e) [ none ↦ none | some v ↦ bk.put b e.path v ]

  unfoldable pub decoded : V → Answer
  decoded v = elim (js.unmarshal v) [ none ↦ unreadable | some e ↦ entry e ]

  unfoldable pub get : B → Bytes → Answer
  get b path = elim (bk.get b path) [ none ↦ not_found | some v ↦ decoded v ]

  unfoldable pub exists : B → Bytes → Bool
  exists b path = elim (bk.get b path) [ none ↦ false | some _ ↦ true ]

  unfoldable pub delete : B → Bytes → Option B
  delete b path = bk.delete b path

  -- The loop of the cursor, from the entries that are left.
  unfoldable pub list_entries : Bytes → List (Bytes × V) → Option (List JournalEntry)
  list_entries prefix [] = some []
  list_entries prefix ((k, v) ∷ rest) =
      let more = list_entries prefix rest in
      if has_prefix k prefix
      then elim (js.unmarshal v) [ none ↦ none | some e ↦ Option.map (λ es. e ∷ es) more ]
      else some []

  unfoldable pub list_by_prefix : B → Bytes → Option (List JournalEntry)
  list_by_prefix b prefix = list_entries prefix (bk.seek b prefix)

  -- The walk with a callback that keeps a state; `none` is an error of it or of `Unmarshal`.
  unfoldable pub walk :
      {S : Type 0} → (JournalEntry → S → Option S) → List (Bytes × V) → S → Option S
  walk f [] s = some s
  walk f ((k, v) ∷ rest) s = elim (js.unmarshal v) [
    | none ↦ none
    | some e ↦ elim (f e s) [ none ↦ none | some t ↦ walk f rest t ]
  ]

  unfoldable pub for_each : {S : Type 0} → (JournalEntry → S → Option S) → B → S → Option S
  for_each f b s = walk f (bk.seek b []) s

  unfoldable pub journal_next_old_n : B → Matcher → Bytes → Bytes × ℕ
  journal_next_old_n b m path = next_old_n m path (exists b)

-- The meta bucket, if it is there.
module _ {M : Type 0} (bk : Bucket M Bytes) where
  unfoldable pub get_meta : Option M → Bytes → Bytes
  get_meta none key = []
  get_meta (some b) key = elim (bk.get b key) [ none ↦ [] | some v ↦ v ]

  unfoldable pub set_meta : Option M → Bytes → Bytes → Option M
  set_meta none key val = none
  set_meta (some b) key val = bk.put b key val

  unfoldable pub get_page_token : Option M → Bytes
  get_page_token b = get_meta b (codes "page_token")

  unfoldable pub set_page_token : Option M → Bytes → Option M
  set_page_token b token = set_meta b (codes "page_token") token
