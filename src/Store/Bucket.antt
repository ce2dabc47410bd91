-- ===== src/Store/Bucket.antt =====
-- What internal/store uses of a bucket of go.etcd.io/bbolt and of encoding/json, with what their
-- documentation says: keys are kept in byte order, and a cursor runs from the first key that is
-- not below the one it seeks.
use home_drive.Base.{
  ◌≡◌, ◌≢◌, Bool, true, false, ◌&&◌, ◌||◌, ◌⊎◌, Option, none, some, List, [], ◌∷◌, ltb, ◌==◌, All,
}
use home_drive.Base.Text.{Bytes}
use home_drive.Syncer.Types.{JournalEntry}

-- `bytes.Compare(a, b) <= 0`
unfoldable pub at_most : Bytes → Bytes → Bool
at_most [] b = true
at_most (x ∷ a) [] = false
at_most (x ∷ a) (y ∷ b) = ltb x y || (x == y && at_most a b)

-- In a transaction; `none` is an error.
pub record Bucket (B V : Type 0) : Type 0 where
  pub get : B → Bytes → Option V
  pub put : B → Bytes → V → Option B
  pub delete : B → Bytes → Option B
  pub seek : B → Bytes → List (Bytes × V)

pub record Json (V : Type 0) : Type 0 where
  pub marshal : JournalEntry → Option V
  pub unmarshal : V → Option JournalEntry

-- `Marshal` writes an entry, if it does at all, so that `Unmarshal` reads it back. Of encoding/json
-- this is documented for texts that are valid UTF-8; other bytes it replaces.
abbrev pub Lossless : {V : Type 0} → Json V → JournalEntry → Type 0
Lossless js e = (v : _) → js.marshal e ≡ some v → js.unmarshal v ≡ some e

abbrev pub Among : {A : Type 0} → A → List A → Type 0
Among a [] = ⊥
Among a (x ∷ xs) = (a ≡ x) ⊎ Among a xs

-- Each key is at most every later one.
abbrev pub Sorted : {V : Type 0} → List (Bytes × V) → Type 0
Sorted [] = Unit
Sorted (x ∷ xs) = All (λ y. at_most x.0 y.0 ≡ true) xs × Sorted xs

pub record BucketLaws {B V : Type 0} (bk : Bucket B V) : Type 0 where
  pub put_same : (b b' : B) (k : Bytes) (v : V) → bk.put b k v ≡ some b' → bk.get b' k ≡ some v
  pub put_other :
      (b b' : B) (k q : Bytes) (v : V) → bk.put b k v ≡ some b' → q ≢ k → bk.get b' q ≡ bk.get b q
  pub delete_same : (b b' : B) (k : Bytes) → bk.delete b k ≡ some b' → bk.get b' k ≡ none
  pub delete_other :
      (b b' : B) (k q : Bytes) → bk.delete b k ≡ some b' → q ≢ k → bk.get b' q ≡ bk.get b q
  pub seek_sound :
      (b : B) (p : Bytes)
      → All (λ x. (bk.get b x.0 ≡ some x.1) × (at_most p x.0 ≡ true)) (bk.seek b p)
  pub seek_complete :
      (b : B) (p k : Bytes) (v : V)
      → bk.get b k ≡ some v
      → at_most p k ≡ true
      → Among (k, v) (bk.seek b p)
  pub seek_Sorted : (b : B) (p : Bytes) → Sorted (bk.seek b p)
