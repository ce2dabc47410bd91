-- ===== src/Store/Tests.antt =====
-- The rewrite of a prefix on a bucket that has room for one entry, and the theorem at that bucket.
mod Journal
use home_drive.Base.{
  ◌≡◌, ◌≢◌, refl, sym, ap, ◌∙◌, true, false, Option, none, some, List, [], ◌∷◌, All, if◌then◌else◌,
  Bool-cases, inl, inr,
}
use mathlib.Core.Path.{subst}
use home_drive.Base.Text.{Bytes, codes, bytes_eq, bytes_eq_iff, has_prefix}
use home_drive.Syncer.Types.{JournalEntry, local}
use home_drive.Store.Bucket.{Bucket, BucketLaws, Json, Among, Sorted, at_most}
use home_drive.Store.Rename.{rewrite_prefix, collect, apply, renamed, trim_prefix}
use home_drive.Store.Rename.Siblings.{rewrite_prefix_siblings}

abbrev pub Cell : Type 0
Cell = Option (Bytes × JournalEntry)

unfoldable pub cell_get : Cell → Bytes → Option JournalEntry
cell_get none q = none
cell_get (some (k, v)) q = if bytes_eq q k then some v else none

unfoldable pub cell_put : Cell → Bytes → JournalEntry → Option Cell
cell_put none q v = some (some (q, v))
cell_put (some (k, w)) q v = if bytes_eq q k then some (some (q, v)) else none

unfoldable pub cell_delete : Cell → Bytes → Option Cell
cell_delete none q = some none
cell_delete (some (k, w)) q = if bytes_eq q k then some none else some (some (k, w))

unfoldable pub cell_seek : Cell → Bytes → List (Bytes × JournalEntry)
cell_seek none p = []
cell_seek (some (k, w)) p = if at_most p k then (k, w) ∷ [] else []

abbrev pub cell : Bucket Cell JournalEntry
cell = record { get = cell_get; put = cell_put; delete = cell_delete; seek = cell_seek }

same_bytes : (a : Bytes) → bytes_eq a a ≡ true
same_bytes a = (bytes_eq_iff a a).1 refl

other_bytes : (a b : Bytes) → a ≢ b → bytes_eq a b ≡ false
other_bytes a b h = elim (Bool-cases (bytes_eq a b)) [
  | inl e ↦ absurd (h ((bytes_eq_iff a b).0 e))
  | inr e ↦ e
]

abbrev back : Option Cell → Cell
back none = none
back (some c) = c

-- After a write of the key, the cell holds it.
holds :
    (b' : Cell) (k : Bytes) (v : JournalEntry)
    → some (some (k, v)) ≡ some b'
    → cell_get b' k ≡ some v
unfolding cell_get
holds b' k v h = subst (λ c. cell_get c k ≡ some v) (ap back h) (rw (same_bytes k) refl)

holds_other :
    (b' : Cell) (k q : Bytes) (v : JournalEntry)
    → some (some (k, v)) ≡ some b'
    → q ≢ k
    → cell_get b' q ≡ none
unfolding cell_get
holds_other b' k q v h d =
    subst (λ c. cell_get c q ≡ none) (ap back h) (rw (other_bytes q k d) refl)

pub put_same :
    (b b' : Cell) (k : Bytes) (v : JournalEntry) → cell_put b k v ≡ some b' → cell_get b' k ≡ some v
unfolding cell_put
put_same none b' k v h = holds b' k v h
put_same (some (l, w)) b' k v h = elim (Bool-cases (bytes_eq k l)) [
  | inl e ↦ holds b' k v (cc (h, e))
  | inr e ↦ absurd (cc (h, e))
]

-- A key that differs from an equal one.
apart_from : (k l q : Bytes) → bytes_eq k l ≡ true → q ≢ k → bytes_eq q l ≡ false
apart_from k l q e d = other_bytes q l (λ s. d (s ∙ sym ((bytes_eq_iff k l).0 e)))

pub put_other :
    (b b' : Cell) (k q : Bytes) (v : JournalEntry)
    → cell_put b k v ≡ some b'
    → q ≢ k
    → cell_get b' q ≡ cell_get b q
unfolding cell_put cell_get
put_other none b' k q v h d = holds_other b' k q v h d
put_other (some (l, w)) b' k q v h d = elim (Bool-cases (bytes_eq k l)) [
  | inl e ↦ rw (apart_from k l q e d) (holds_other b' k q v (cc (h, e)) d)
  | inr e ↦ absurd (cc (h, e))
]

pub delete_same : (b b' : Cell) (k : Bytes) → cell_delete b k ≡ some b' → cell_get b' k ≡ none
unfolding cell_delete cell_get
delete_same none b' k h = subst (λ c. cell_get c k ≡ none) (ap back h) refl
delete_same (some (l, w)) b' k h = elim (Bool-cases (bytes_eq k l)) [
  | inl e ↦ subst (λ c. cell_get c k ≡ none) (ap back (gone e)) refl
  | inr e ↦ subst (λ c. cell_get c k ≡ none) (ap back (stays e)) (rw e refl)
]
  where
    gone : bytes_eq k l ≡ true → some none ≡ some b'
    gone e = cc (h, e)

    stays : bytes_eq k l ≡ false → some (some (l, w)) ≡ some b'
    stays e = cc (h, e)

pub delete_other :
    (b b' : Cell) (k q : Bytes) → cell_delete b k ≡ some b' → q ≢ k → cell_get b' q ≡ cell_get b q
unfolding cell_delete cell_get
delete_other none b' k q h d = subst (λ c. cell_get c q ≡ none) (ap back h) refl
delete_other (some (l, w)) b' k q h d = elim (Bool-cases (bytes_eq k l)) [
  | inl e ↦ rw (apart_from k l q e d) (subst (λ c. cell_get c q ≡ none) (ap back (gone e)) refl)
  | inr e ↦ subst (λ c. cell_get c q ≡ cell_get (some (l, w)) q) (ap back (stays e)) refl
]
  where
    gone : bytes_eq k l ≡ true → some none ≡ some b'
    gone e = cc (h, e)

    stays : bytes_eq k l ≡ false → some (some (l, w)) ≡ some b'
    stays e = cc (h, e)

pub seek_sound :
    (b : Cell) (p : Bytes)
    → All (λ x. (cell_get b x.0 ≡ some x.1) × (at_most p x.0 ≡ true)) (cell_seek b p)
unfolding cell_seek cell_get
seek_sound none p = tt
seek_sound (some (k, w)) p = elim (Bool-cases (at_most p k)) [
  | inl e ↦ rw e ((rw (same_bytes k) refl, e), tt)
  | inr e ↦ rw e tt
]

abbrev keyed : Bytes → JournalEntry → Bytes × JournalEntry
keyed k v = (k, v)

pair : {k l : Bytes} {v w : JournalEntry} → k ≡ l → some w ≡ some v → keyed k v ≡ keyed l w
pair s t = cc (s, t)

pub seek_complete :
    (b : Cell) (p k : Bytes) (v : JournalEntry)
    → cell_get b k ≡ some v
    → at_most p k ≡ true
    → Among (k, v) (cell_seek b p)
unfolding cell_seek cell_get
seek_complete none p k v h a = absurd (cc h)
seek_complete (some (l, w)) p k v h a = elim (Bool-cases (bytes_eq k l)) [
  | inl e ↦
      let same : l ≡ k = sym ((bytes_eq_iff k l).0 e) in
      let value : some w ≡ some v = cc (h, e) in
      rw (subst (λ x. at_most p x ≡ true) (sym same) a) (inl (pair (sym same) value))
  | inr e ↦ absurd (cc (h, e))
]

pub seek_Sorted : (b : Cell) (p : Bytes) → Sorted (cell_seek b p)
unfolding cell_seek
seek_Sorted none p = tt
seek_Sorted (some (k, w)) p = elim (Bool-cases (at_most p k)) [
  | inl e ↦ rw e (tt, tt)
  | inr e ↦ rw e tt
]

abbrev pub cell_laws : BucketLaws cell
cell_laws = record {
  put_same = put_same;
  put_other = put_other;
  delete_same = delete_same;
  delete_other = delete_other;
  seek_sound = seek_sound;
  seek_complete = seek_complete;
  seek_Sorted = seek_Sorted;
}

abbrev pub plain : Json JournalEntry
plain = record { marshal = λ e. some e; unmarshal = λ e. some e }

abbrev pub entry : Bytes → JournalEntry
entry p = record {
  path = p;
  local_mtime = 1;
  remote_mtime = 1;
  remote_md5 = [];
  remote_id = [];
  last_synced_at = 1;
  last_origin = local;
}

-- An entry below the directory `photos2`.
abbrev pub sibling : Cell
sibling = some (codes "photos2/x", entry (codes "photos2/x"))

abbrev moved : Cell
moved = some (codes "pics2/x", entry (codes "pics2/x"))

rewritten : rewrite_prefix cell plain sibling (codes "photos") (codes "pics") ≡ some (moved, 1)
unfolding rewrite_prefix collect apply renamed trim_prefix cell_seek cell_delete cell_put at_most
    bytes_eq has_prefix
rewritten = refl

fresh : has_prefix (codes "photos2/x") (codes "pics") ≡ false
unfolding has_prefix
fresh = refl

rewrite_prefix_siblings_example :
    (has_prefix (codes "photos2/x") (codes "photos") ≡ true
      → cell_get moved (codes "photos2/x") ≡ none)
    × (has_prefix (codes "photos2/x") (codes "photos") ≡ false
        → cell_get moved (codes "photos2/x") ≡ cell_get sibling (codes "photos2/x"))
rewrite_prefix_siblings_example =
    rewrite_prefix_siblings (codes "photos") (codes "pics") cell plain cell_laws sibling moved 1
      (codes "photos2/x") (λ e. cc e) rewritten fresh
