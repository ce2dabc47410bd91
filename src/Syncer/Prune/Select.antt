-- ===== src/Syncer/Prune/Select.antt =====
-- Which conflict losers the retention evicts.
use home_drive.Base.{
  ℕ, suc, ◌+◌, ◌-◌, ◌≤◌, ◌<◌, ◌≡◌, refl, ap, ◌∙◌, arith, false, some, List, [], ◌∷◌, Bool-cases,
  Option-cases, inl, inr, length, All,
}
use home_drive.Base.Text.{Bytes, bytes_eq, bytes_eq_iff}
use home_drive.Base.Time.{Time}
use home_drive.OldSuffix.{Matcher, trim_one}
use home_drive.Syncer.Types.{JournalEntry}
use home_drive.Syncer.Prune.{
  RetentionPolicy, Indexed, siblings_of, before, insert, sort, too_old, over_count, pick,
  select_evictions,
}

length-insert : (a : Indexed) (bs : List Indexed) → length (insert a bs) ≡ suc (length bs)
unfolding insert
length-insert a [] = refl
length-insert a (b ∷ bs) = elim (Bool-cases (before b a)) [
  | inl e ↦ rw e (ap suc (length-insert a bs))
  | inr e ↦ rw e refl
]

length-sort : (xs : List Indexed) → length (sort xs) ≡ length xs
unfolding sort
length-sort [] = refl
length-sort (x ∷ xs) = length-insert x (sort xs) ∙ ap suc (length-sort xs)

module _ {ℓ} (P : Indexed → Type ℓ) where
  pub insert-All : (a : Indexed) (bs : List Indexed) → P a → All P bs → All P (insert a bs)
  unfolding insert
  insert-All a [] p h = (p, tt)
  insert-All a (b ∷ bs) p h = elim (Bool-cases (before b a)) [
    | inl e ↦ rw e (h.0, insert-All a bs p h.1)
    | inr e ↦ rw e (p, h)
  ]

  sort-All : (xs : List Indexed) → All P xs → All P (sort xs)
  unfolding sort
  sort-All [] h = tt
  sort-All (x ∷ xs) h = insert-All x (sort xs) h.0 (sort-All xs h.1)

module _ (policy : RetentionPolicy) (now : Time) where
  kept : (i : ℕ) → over_count policy i ≡ false → 0 < policy.max_per_file → i < policy.max_per_file
  unfolding over_count
  kept i under p = ground (arith, under, p)

  -- From index `i` on, the siblings that are kept have an index below the limit.
  length-pick :
      (i : ℕ) (xs : List Indexed)
      → 0 < policy.max_per_file
      → length xs ≤ length (pick policy now i xs) + (policy.max_per_file - i)
  unfolding pick
  length-pick i [] p = omega arith
  length-pick i (x ∷ xs) p = elim (Bool-cases (too_old policy now x)) [
    | inl old ↦ rw old (omega (arith, length-pick (i + 1) xs p))
    | inr young ↦ elim (Bool-cases (over_count policy i)) [
      | inl over ↦ rw (young, over) (omega (arith, length-pick (i + 1) xs p))
      | inr under ↦ rw (young, under) (omega (arith, length-pick (i + 1) xs p, kept i under p))
    ]
  ]

  pub pick-All {ℓ} :
      (P : JournalEntry → Type ℓ) (i : ℕ) (xs : List Indexed)
      → All (λ x. P x.entry) xs
      → All (λ ev. P ev.entry) (pick policy now i xs)
  unfolding pick
  pick-All P i [] h = tt
  pick-All P i (x ∷ xs) h = elim (Bool-cases (too_old policy now x)) [
    | inl old ↦ rw old (h.0, pick-All P (i + 1) xs h.1)
    | inr young ↦ elim (Bool-cases (over_count policy i)) [
      | inl over ↦ rw (young, over) (h.0, pick-All P (i + 1) xs h.1)
      | inr under ↦ rw (young, under) (pick-All P (i + 1) xs h.1)
    ]
  ]

-- A loser directly behind the base: its name is the base with one suffix.
abbrev pub Direct : Matcher → Bytes → JournalEntry → Type 0
Direct m base e = (n : ℕ) × (trim_one m e.path ≡ some (base, n))

siblings_of-All {ℓ} :
    (P : JournalEntry → Type ℓ) (m : Matcher) (base : Bytes) (es : List JournalEntry)
    → All P es
    → All (λ x. P x.entry × Direct m base x.entry) (siblings_of m base es)
unfolding siblings_of
siblings_of-All P m base [] h = tt
siblings_of-All P m base (e ∷ es) h = elim (Option-cases (trim_one m e.path)) [
  | inl bare ↦ rw (bare, siblings_of) (siblings_of-All P m base es h.1)
  | inr ((t, n), got) ↦ elim (Bool-cases (bytes_eq t base)) [
    | inl same ↦
        let direct : trim_one m e.path ≡ some (base, n) =
          got ∙ ap (λ b. some (b, n)) ((bytes_eq_iff t base).0 same) in
        rw (got, same, siblings_of) ((h.0, (n, direct)), siblings_of-All P m base es h.1)
    | inr other ↦ rw (got, other, siblings_of) (siblings_of-All P m base es h.1)
  ]
]

-- The retention evicts only entries of the scan (any `P` that holds of those holds of an evicted
-- one) whose name is the base with exactly one suffix, and with a positive limit per file it leaves
-- at most that many of the losers directly behind the base.
pub select_evictions_lem {ℓ} :
    (P : JournalEntry → Type ℓ) (m : Matcher) (base : Bytes) (candidates : List JournalEntry)
    (policy : RetentionPolicy) (now : Time)
    → All P candidates
    → All
        (λ ev. P ev.entry × Direct m base ev.entry)
        (select_evictions m base candidates policy now)
      × (0 < policy.max_per_file
          → length (siblings_of m base candidates)
            ≤ length (select_evictions m base candidates policy now) + policy.max_per_file)
unfolding select_evictions
select_evictions_lem P m base candidates policy now h =
    let found : List Indexed = siblings_of m base candidates in
    (
      pick-All policy now (λ e. P e × Direct m base e) 0 (sort found)
          (sort-All (λ x. P x.entry × Direct m base x.entry) found
            (siblings_of-All P m base candidates h)),
      λ p. omega (arith, length-sort found, length-pick policy now 0 (sort found) p),
    )
