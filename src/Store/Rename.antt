-- ===== src/Store/Rename.antt =====
-- internal/store/rename.go: the rewrite of a path prefix in one transaction.
pub mod Scan
pub mod Siblings
use home_drive.Base.{
  ℕ, ◌+◌, Bool, true, false, Option, none, some, List, [], ◌∷◌, ◌++◌, if◌then◌else◌, length, drop,
}
use mathlib.Core.Option
use home_drive.Base.Text.{Bytes, bytes_eq, has_prefix}
use home_drive.Syncer.Types.{JournalEntry}
use home_drive.Store.Bucket.{Bucket, Json}

-- `strings.TrimPrefix`
unfoldable pub trim_prefix : Bytes → Bytes → Bytes
trim_prefix s prefix = if has_prefix s prefix then drop (length prefix) s else s

pub record RewriteOp : Type 0 where
  pub old_key : Bytes
  pub entry : JournalEntry

unfoldable pub renamed : Bytes → Bytes → JournalEntry → JournalEntry
renamed old new e = record e { path = new ++ trim_prefix e.path old }

module _ {B V : Type 0} (bk : Bucket B V) (js : Json V) where
  -- The loop of the cursor, from the entries that are left. `none` is an error of `Unmarshal`.
  unfoldable pub collect : Bytes → Bytes → List (Bytes × V) → Option (List RewriteOp)
  collect old new [] = some []
  collect old new ((k, v) ∷ rest) =
      let more = collect old new rest in
      if has_prefix k old
      then elim (js.unmarshal v) [
        | none ↦ none
        | some e ↦ Option.map (λ ops. record { old_key = k; entry = renamed old new e } ∷ ops) more
      ]
      else some []

  unfoldable pub apply : List RewriteOp → B → Option B
  apply [] b = some b
  apply (op ∷ ops) b = elim (bk.delete b op.old_key) [
    | none ↦ none
    | some b1 ↦ elim (js.marshal op.entry) [
      | none ↦ none
      | some v ↦ elim (bk.put b1 op.entry.path v) [ none ↦ none | some b2 ↦ apply ops b2 ]
    ]
  ]

  -- `none` is an error, with which the transaction changes nothing.
  unfoldable pub rewrite_prefix : B → Bytes → Bytes → Option (B × ℕ)
  rewrite_prefix b old new =
      if bytes_eq old new then some (b, 0) else elim (collect old new (bk.seek b old)) [
        | none ↦ none
        | some ops ↦ Option.map (λ b'. (b', length ops)) (apply ops b)
      ]
