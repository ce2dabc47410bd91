-- ===== src/Store/Journal/Reads.antt =====
-- What is read from the journal after a write, and what a listing of a prefix has.
use home_drive.Base.{
  ◌≡◌, ◌≢◌, refl, sym, ap, ◌∙◌, true, Option, none, some, List, [], ◌∷◌, All, inl, inr, Bool-cases,
}
use mathlib.Core.Path.{subst}
use mathlib.Core.Option
use home_drive.Base.Text.{Bytes, has_prefix}
use home_drive.Base.{then-branch}
use home_drive.Syncer.Types.{JournalEntry}
use home_drive.Store.Bucket.{Bucket, BucketLaws, Json, Lossless, Among, Sorted, at_most}
use home_drive.Store.Rename.Siblings.{chosen, first_at_most, no_bool}
use home_drive.Store.Rename.Scan.{has_prefix_between, has_prefix-at_most}
use home_drive.Store.Journal.{
  not_found, unreadable, entry, put, decoded, get, exists, delete, list_entries, list_by_prefix,
}

-- What is read after the bucket holds, or does not hold, a value.
module _ {B V : Type 0} (bk : Bucket B V) (js : Json V) where
  pub get_some :
      (b : B) (p : Bytes) (e : JournalEntry) (v : V)
      → js.unmarshal v ≡ some e
      → bk.get b p ≡ some v
      → (get bk js b p ≡ entry e) × (exists bk js b p ≡ true)
  unfolding get decoded exists
  get_some b p e v back held = (rw (held, get) rw (back, decoded) refl, rw (held, exists) refl)

  -- What a put that succeeds wrote.
  pub put-inv :
      (b b' : B) (e : JournalEntry)
      → put bk js b e ≡ some b'
      → (v : V) × (js.marshal e ≡ some v) × (bk.put b e.path v ≡ some b')
  unfolding put
  put-inv b b' e h = chosen (js.marshal e) (λ v. bk.put b e.path v) b' h

  get_none : (b : B) (p : Bytes) → bk.get b p ≡ none → get bk js b p ≡ not_found
  unfolding get
  get_none b p h = rw (h, get) refl

  get_same : (b b' : B) (p : Bytes) → bk.get b' p ≡ bk.get b p → get bk js b' p ≡ get bk js b p
  unfolding get
  get_same b b' p h = rw (h, get) refl

  -- After a put that succeeds, the path has the entry and exists, and another path is as before.
  -- A delete of the path that succeeds then leaves it without an entry, and the other path as it
  -- was.
  put-delete-get :
      BucketLaws bk
      → (b b' b'' : B) (e : JournalEntry) (q : Bytes) → Lossless js e
      → put bk js b e ≡ some b'
      → delete bk js b' e.path ≡ some b''
      → q ≢ e.path
      → ((get bk js b' e.path ≡ entry e) × (exists bk js b' e.path ≡ true))
        × ((get bk js b' q ≡ get bk js b q)
            × ((get bk js b'' e.path ≡ not_found) × (get bk js b'' q ≡ get bk js b q)))
  unfolding delete
  put-delete-get laws b b' b'' e q back written gone apart =
      let (v, text, done) = put-inv b b' e written in
      let kept = laws.put_other b b' e.path q v done apart in
      (
        get_some b' e.path e v (back v text) (laws.put_same b b' e.path v done),
        (
          get_same b b' q kept,
          (
            get_none b'' e.path (laws.delete_same b' b'' e.path gone),
            get_same b b'' q (laws.delete_other b' b'' e.path q gone apart ∙ kept),
          ),
        ),
      )

with_first :
    {A : Type 0} (o : Option (List A)) (x : A) (es : List A)
    → Option.map (λ l. x ∷ l) o ≡ some es
    → (rest : List A) × ((o ≡ some rest) × (x ∷ rest ≡ es))
with_first none x es h = absurd (cc h)
with_first (some rest) x es h = (rest, (refl, cc h))

read_first :
    {A : Type 0} (o : Option JournalEntry) (f : JournalEntry → Option A) (a : A)
    → (elim o [ none ↦ none | some e ↦ f e ]) ≡ some a
    → (e : JournalEntry) × ((o ≡ some e) × (f e ≡ some a))
read_first none f a h = absurd (cc h)
read_first (some e) f a h = (e, (refl, h))

module _ {B V : Type 0} (bk : Bucket B V) (js : Json V) where
  read_value :
      (o : Option JournalEntry) (e : JournalEntry)
      → (elim o [ none ↦ unreadable | some x ↦ entry x ]) ≡ entry e
      → o ≡ some e
  read_value none e h = absurd (cc h)
  read_value (some x) e h = ap some (cc h)

  value :
      (o : Option V) (e : JournalEntry)
      → (elim o [ none ↦ not_found | some v ↦ decoded bk js v ]) ≡ entry e
      → (v : V) × ((o ≡ some v) × (js.unmarshal v ≡ some e))
  unfolding decoded
  value none e h = absurd (cc h)
  value (some v) e h = (v, (refl, read_value (js.unmarshal v) e h))

  -- An entry that is read comes from a value.
  stored :
      (b : B) (k : Bytes) (e : JournalEntry)
      → get bk js b k ≡ entry e
      → (v : V) × ((bk.get b k ≡ some v) × (js.unmarshal v ≡ some e))
  unfolding get
  stored b k e h = value (bk.get b k) e h

  same_entry :
      (k l : Bytes) (v w : V) (e f : JournalEntry)
      → Path (Bytes × V) (k, v) (l, w)
      → js.unmarshal v ≡ some e
      → js.unmarshal w ≡ some f
      → e ≡ f
  same_entry k l v w e f same read held =
      cc (sym read ∙ (ap (λ (x : Bytes × V). js.unmarshal x.1) same ∙ held))

  -- The scan of a sorted list that starts at the prefix.
  scanned :
      (prefix k : Bytes) (v : V) (e : JournalEntry) (xs : List (Bytes × V)) (es : List JournalEntry)
      → Sorted xs
      → All (λ (x : Bytes × V). at_most prefix x.0 ≡ true) xs
      → has_prefix k prefix ≡ true
      → js.unmarshal v ≡ some e
      → Among (k, v) xs
      → list_entries bk js prefix xs ≡ some es
      → Among e es
  unfolding list_entries
  scanned prefix k v e [] es sorted above has read i h = absurd i
  scanned prefix k v e ((l, w) ∷ xs) es sorted above has read i h =
      elim (Bool-cases (has_prefix l prefix)) [
        | inl c ↦
            let (first, (held, more)) =
              read_first (js.unmarshal w) _ es (sym (then-branch _ _ c) ∙ h) in
            let (rest, (listed, split)) = with_first _ first es more in
            subst (λ t. Among e t) split
              (elim i [
                | inl same ↦ inl (same_entry k l v w e first same read held)
                | inr later ↦
                    inr (scanned prefix k v e xs rest sorted.1 above.1 has read later listed)
              ])
        | inr c ↦ absurd (
            no_bool c
              (has_prefix_between prefix l k above.0 (first_at_most l w xs k v sorted.0 i) has))
      ]

  -- A listing of a prefix that succeeds has the entry of every key that begins with the bytes of
  -- the prefix.
  pub list_by_prefix-Among :
      BucketLaws bk
      → (b : B) (prefix k : Bytes) (e : JournalEntry) (es : List JournalEntry)
      → get bk js b k ≡ entry e
      → has_prefix k prefix ≡ true
      → list_by_prefix bk js b prefix ≡ some es
      → Among e es
  unfolding list_by_prefix
  list_by_prefix-Among laws b prefix k e es got has h =
      let (v, (held, read)) = stored b k e got in
      scanned prefix k v e (bk.seek b prefix) es (laws.seek_Sorted b prefix)
        (above (bk.seek b prefix) (laws.seek_sound b prefix)) has read
        (laws.seek_complete b prefix k v held (has_prefix-at_most prefix k has)) h
    where
      above :
          (xs : List (Bytes × V))
          → All (λ (x : Bytes × V). (bk.get b x.0 ≡ some x.1) × (at_most prefix x.0 ≡ true)) xs
          → All (λ (x : Bytes × V). at_most prefix x.0 ≡ true) xs
      above [] t = tt
      above (x ∷ xs) t = (t.0.1, above xs t.1)
