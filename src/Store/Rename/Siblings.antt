-- ===== src/Store/Rename/Siblings.antt =====
-- What the rewrite of a prefix does to the keys that have it.
use mathlib.Core.Path.{subst}
use mathlib.Core.Option
use home_drive.Base.{
  append-nil, ℕ, ◌≡◌, ◌≢◌, refl, sym, ap, ◌∙◌, Bool, true, false, Option, none, some, List, [], ◌∷◌,
  All, ◌⊎◌, inl, inr, Bool-cases, if◌then◌else◌, length, Option-cases,
}
use home_drive.Base.Text.{Bytes, bytes_eq, bytes_eq_iff, has_prefix, has_prefix-append}
use home_drive.Syncer.Types.{JournalEntry}
use home_drive.Store.Bucket.{Bucket, BucketLaws, Json, Among, Sorted, at_most}
use home_drive.Store.Rename.{RewriteOp, renamed, trim_prefix, collect, apply, rewrite_prefix}
use home_drive.Store.Rename.Scan.{has_prefix_between, has_prefix-at_most}

has_prefix_self : (k : Bytes) → has_prefix k k ≡ true
has_prefix_self k = subst (λ x. has_prefix x k ≡ true) (append-nil k) (has_prefix-append k [])

abbrev Keyed : Bytes → List RewriteOp → Type 0
Keyed k [] = ⊥
Keyed k (op ∷ ops) = (k ≡ op.old_key) ⊎ Keyed k ops

pub All-Among : {A : Type 0} (P : A → Type 0) (a : A) (xs : List A) → All P xs → Among a xs → P a
All-Among P a [] h i = absurd i
All-Among P a (x ∷ xs) h i = elim i [
  | inl e ↦ subst P (sym e) h.0
  | inr later ↦ All-Among P a xs h.1 later
]

pub no_bool : {b : Bool} → b ≡ false → b ≡ true → ⊥
no_bool e h = cc (e, h)

unlike : (a b : Bytes) → bytes_eq a b ≡ false → a ≢ b
unlike a b e same = no_bool e ((bytes_eq_iff a b).1 same)

at_most_self : (k : Bytes) → at_most k k ≡ true
at_most_self k = has_prefix-at_most k k (has_prefix_self k)

-- The first key is at most every key of the list.
pub first_at_most :
    {V : Type 0} (l : Bytes) (w : V) (xs : List (Bytes × V)) (k : Bytes) (v : V)
    → All (λ y. at_most l y.0 ≡ true) xs
    → Among (k, v) ((l, w) ∷ xs)
    → at_most l k ≡ true
first_at_most l w xs k v h i = elim i [
  | inl same ↦ subst (λ x. at_most l x ≡ true) (sym (ap (λ x. x.0) same)) (at_most_self l)
  | inr later ↦ All-Among (λ y. at_most l y.0 ≡ true) (k, v) xs h later
]

pub chosen :
    {A B : Type 0} (o : Option A) (f : A → Option B) (b : B)
    → (elim o [ none ↦ none | some x ↦ f x ]) ≡ some b
    → (x : A) × (o ≡ some x) × (f x ≡ some b)
chosen none f b h = absurd (cc h)
chosen (some x) f b h = (x, refl, h)

abbrev counted : {B : Type 0} → B → ℕ → B × ℕ
counted b n = (b, n)

mapped :
    {B : Type 0} (o : Option B) (k n : ℕ) (b : B)
    → Option.map (λ x. counted x k) o ≡ some (counted b n)
    → o ≡ some b
mapped none k n b h = absurd (cc h)
mapped (some x) k n b h = ap (Option.map (λ y. y.0)) h

unwrap :
    {B : Type 0} (c : Bool)
    → c ≡ false
    → (o : Option (List RewriteOp)) (f : List RewriteOp → Option B) (b b' : B) (n : ℕ)
    → (if c
        then some (counted b 0)
        else elim o [ none ↦ none | some ops ↦ Option.map (λ x. counted x (length ops)) (f ops) ])
      ≡ some (counted b' n)
    → (ops : List RewriteOp) × (o ≡ some ops) × (f ops ≡ some b')
unwrap true e o f b b' n h = absurd (cc e)
unwrap false e none f b b' n h = absurd (cc h)
unwrap false e (some ops) f b b' n h = (ops, refl, mapped (f ops) (length ops) n b' h)

differs : (a b : Bytes) → a ≢ b → bytes_eq a b ≡ false
differs a b h = elim (Bool-cases (bytes_eq a b)) [
  | inl e ↦ absurd (h ((bytes_eq_iff a b).0 e))
  | inr e ↦ e
]

All-right : {A : Type 0} (P Q : A → Type 0) (xs : List A) → All (λ x. P x × Q x) xs → All Q xs
All-right P Q [] h = tt
All-right P Q (x ∷ xs) h = (h.0.1, All-right P Q xs h.1)

module _ (old new : Bytes) where
  abbrev Marked : RewriteOp → Type 0
  Marked op = (has_prefix op.entry.path new ≡ true) × (has_prefix op.old_key old ≡ true)

  abbrev Taken : Bool → Bytes → Option (List RewriteOp) → List RewriteOp → Type 0
  Taken c k more ops =
      ((c ≡ false) × (ops ≡ []))
      ⊎ ((c ≡ true)
          × (e : JournalEntry) × (rest : List RewriteOp) × (more ≡ some rest)
          × (ops ≡ record { old_key = k; entry = renamed old new e } ∷ rest))

  taken :
      (c : Bool) (k : Bytes) (u : Option JournalEntry) (more : Option (List RewriteOp))
      (ops : List RewriteOp)
      → (if c
          then elim u [
            | none ↦ none
            | some e ↦
                Option.map (λ ops. record { old_key = k; entry = renamed old new e } ∷ ops) more
          ]
          else some [])
        ≡ some ops
      → Taken c k more ops
  taken false k u more ops h = inl (refl, cc h)
  taken true k none more ops h = absurd (cc h)
  taken true k (some e) none ops h = absurd (cc h)
  taken true k (some e) (some rest) ops h = inr (refl, e, rest, refl, cc h)

  renamed-Marked : (e : JournalEntry) → has_prefix (renamed old new e).path new ≡ true
  unfolding renamed
  renamed-Marked e = has_prefix-append new (trim_prefix e.path old)

  module _ {B V : Type 0} (bk : Bucket B V) (js : Json V) where
    collect-Taken :
        (k : Bytes) (v : V) (xs : List (Bytes × V)) (ops : List RewriteOp)
        → collect bk js old new ((k, v) ∷ xs) ≡ some ops
        → Taken (has_prefix k old) k (collect bk js old new xs) ops
    unfolding collect
    collect-Taken k v xs ops h =
        taken (has_prefix k old) k (js.unmarshal v) (collect bk js old new xs) ops h

    collect-Marked :
        (xs : List (Bytes × V)) (ops : List RewriteOp)
        → collect bk js old new xs ≡ some ops
        → All Marked ops
    unfolding collect
    collect-Marked [] ops h = subst (All Marked) (nothing ops h) tt
      where
        nothing : (ops : List RewriteOp) → some [] ≡ some ops → [] ≡ ops
        nothing ops h = cc h
    collect-Marked ((k, v) ∷ xs) ops h = elim (collect-Taken k v xs ops h) [
      | inl (c, e) ↦ rw e tt
      | inr (c, e, rest, more, shape) ↦
          rw shape ((renamed-Marked e, c), collect-Marked xs rest more)
    ]

    collect-Keyed :
        (xs : List (Bytes × V)) (ops : List RewriteOp) (k : Bytes) (v : V)
        → collect bk js old new xs ≡ some ops
        → Sorted xs
        → All (λ x. at_most old x.0 ≡ true) xs
        → Among (k, v) xs
        → has_prefix k old ≡ true
        → Keyed k ops
    collect-Keyed [] ops k v h s a i p = absurd i
    collect-Keyed ((l, w) ∷ xs) ops k v h s a i p = elim (collect-Taken l w xs ops h) [
      | inl (c, e) ↦
          absurd (no_bool c (has_prefix_between old l k a.0 (first_at_most l w xs k v s.0 i) p))
      | inr (c, e, rest, more, shape) ↦ rw shape (elim i [
        | inl same ↦ inl (ap (λ x. x.0) same)
        | inr later ↦ inr (collect-Keyed xs rest k v more s.1 a.1 later p)
      ])
    ]

    module _ (laws : BucketLaws bk) where
      -- One key under one operation: it keeps its entry unless it is the old key.
      apply_one :
          (b b1 b2 : B) (op : RewriteOp) (v : V) (q : Bytes)
          → bk.delete b op.old_key ≡ some b1
          → bk.put b1 op.entry.path v ≡ some b2
          → Marked op
          → has_prefix q new ≡ false
          → ((q ≢ op.old_key → bk.get b2 q ≡ bk.get b q) × (q ≡ op.old_key → bk.get b2 q ≡ none))
      apply_one b b1 b2 op v q deleted put mark fresh =
          let other : q ≢ op.entry.path =
            λ e. no_bool fresh (subst (λ x. has_prefix x new ≡ true) (sym e) mark.0) in
          let kept : bk.get b2 q ≡ bk.get b1 q = laws.put_other b1 b2 op.entry.path q v put other in
          (
            λ d. kept ∙ laws.delete_other b b1 op.old_key q deleted d,
            λ e.
                kept
                ∙ subst (λ x. bk.get b1 x ≡ none) (sym e)
                    (laws.delete_same b b1 op.old_key deleted),
          )

      apply-get :
          (ops : List RewriteOp) (b b' : B) (q : Bytes)
          → apply bk js ops b ≡ some b'
          → All Marked ops
          → has_prefix q new ≡ false
          → (bk.get b q ≡ none → bk.get b' q ≡ none)
            × (Keyed q ops → bk.get b' q ≡ none)
            × (has_prefix q old ≡ false → bk.get b' q ≡ bk.get b q)
      unfolding apply
      apply-get [] b b' q h m f = (
        λ g. subst (λ x. bk.get x q ≡ none) (inside b b' h) g,
        λ i. absurd i,
        λ o. ap (λ x. bk.get x q) (sym (inside b b' h)),
      )
        where
          inside : (b b' : B) → some b ≡ some b' → b ≡ b'
          inside b b' h = cc h
      apply-get (op ∷ ops) b b' q h m f =
          let (b1, deleted, h1) = chosen (bk.delete b op.old_key) _ b' h in
          let (v, _, h3) = chosen (js.marshal op.entry) _ b' h1 in
          let (b2, put, h2) = chosen (bk.put b1 op.entry.path v) _ b' h3 in
          let (same, gone) = apply_one b b1 b2 op v q deleted put m.0 f in
          let (stays, falls, apart) = apply-get ops b2 b' q h2 m.1 f in
          (
            λ g. stays (elim (Bool-cases (bytes_eq q op.old_key)) [
              | inl e ↦ gone ((bytes_eq_iff q op.old_key).0 e)
              | inr e ↦ same (unlike q op.old_key e) ∙ g
            ]),
            λ i. elim i [ inl e ↦ stays (gone e) | inr later ↦ falls later ],
            λ o.
                apart o
                ∙ same (λ e. no_bool o (subst (λ x. has_prefix x old ≡ true) (sym e) m.0.1)),
          )

      -- Against a bucket of bbolt: a rewrite of the prefix `old` to another prefix `new` that
      -- succeeds leaves no entry under any key that begins with the bytes of `old` and not with
      -- those of `new`, whether a slash follows them or not, and keeps the entry of every key that
      -- begins with neither.
      pub rewrite_prefix_siblings :
          (b b' : B) (n : ℕ) (q : Bytes)
          → old ≢ new
          → rewrite_prefix bk js b old new ≡ some (b', n)
          → has_prefix q new ≡ false
          → (has_prefix q old ≡ true → bk.get b' q ≡ none)
            × (has_prefix q old ≡ false → bk.get b' q ≡ bk.get b q)
      unfolding rewrite_prefix
      rewrite_prefix_siblings b b' n q differ h fresh =
          let (ops, scanned, applied) =
            unwrap (bytes_eq old new) (differs old new differ)
              (collect bk js old new (bk.seek b old)) (λ ops. apply bk js ops b) b b' n h in
          let marks : All Marked ops = collect-Marked (bk.seek b old) ops scanned in
          let (stays, falls, apart) = apply-get ops b b' q applied marks fresh in
          (
            λ p. elim (Option-cases (bk.get b q)) [
              | inl empty ↦ stays empty
              | inr (v, held) ↦ falls (
                  collect-Keyed (bk.seek b old) ops q v scanned (laws.seek_Sorted b old)
                    (All-right (λ x. bk.get b x.0 ≡ some x.1) (λ x. at_most old x.0 ≡ true)
                      (bk.seek b old) (laws.seek_sound b old))
                    (laws.seek_complete b old q v held (has_prefix-at_most old q p)) p)
            ],
            apart,
          )
