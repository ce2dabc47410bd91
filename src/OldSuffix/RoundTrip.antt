-- ===== src/OldSuffix/RoundTrip.antt =====
-- `TrimOne` and `Format` undo each other: what the program reads as a suffix is what it writes.
use home_drive.Base.{ℕ, zero, suc, ◌+◌, ◌^◌, ◌≤◌, ◌<◌, ◌≡◌, refl, sym, ap, ◌∙◌, ◌≢◌, true, false}
use home_drive.Base.{none, some, [], ◌∷◌, ◌++◌, append_assoc, arith}
use home_drive.Base.{
  length, take, drop, all, All, length-append, take-length-append, drop-length-append,
}
use home_drive.Base.{drop-add, Option-cases, Bool-cases, inl, inr}
use home_drive.Base.Text.{Bytes, has_prefix, has_suffix, trim_suffix, last_index, has_prefix-append}
use home_drive.Base.Text.{
  has_prefix_sound, has_suffix-append, trim_suffix-append, trim_suffix_sound,
}
use home_drive.OldSuffix.{Matcher, format, trim_one, trim_rest, check_parts, leading_zero}
use home_drive.OldSuffix.Decimal.{
  itoa, value, is_digit, Digit, value-itoa, itoa-value, itoa-Digit, itoa-head,
}

pub last_index_sound :
    (s pat : Bytes) (i : ℕ)
    → last_index s pat ≡ some i
    → s ≡ take i s ++ (pat ++ drop (i + length pat) s)
unfolding last_index
last_index_sound [] [] i h = ground (arith, first i h)
  where
    first : (i : ℕ) → some 0 ≡ some i → i ≡ 0
    first i h = cc
last_index_sound [] (p ∷ pat) i h = unfold has_prefix in cc
last_index_sound (c ∷ s) pat zero h =
    let z : 0 + length pat ≡ length pat = omega arith in
    rw z (has_prefix_sound (c ∷ s) pat (ground arith))
last_index_sound (c ∷ s) pat (suc i) h =
    let z : suc i + length pat ≡ suc (i + length pat) = omega arith in
    rw z (ap (λ t. c ∷ t) (last_index_sound s pat i (ground arith)))

module _ (x : ℕ) (plain : is_digit x ≡ false) where
  -- A text whose last byte is no digit does not begin a text that is digits from there on.
  has_prefix-digits :
      (q' u ds : Bytes)
      → length u ≤ length q'
      → All Digit ds
      → has_prefix (u ++ ds) (q' ++ x ∷ []) ≡ false
  unfolding has_prefix
  has_prefix-digits [] [] [] h d = refl
  has_prefix-digits [] [] (c ∷ ds) h (dc, d) =
      let apart : c ≢ x = λ e. cc (dc, plain, ap is_digit e) in ground arith
  has_prefix-digits [] (b ∷ u) ds h d = absurd (omega arith)
  has_prefix-digits (a ∷ q') [] [] h d = refl
  has_prefix-digits (a ∷ q') [] (c ∷ ds) h (dc, d) =
      ground (arith, has_prefix-digits q' [] ds (omega arith) d)
  has_prefix-digits (a ∷ q') (b ∷ u) ds h d =
      ground (arith, has_prefix-digits q' u ds (omega arith) d)

  last_index-digits :
      (q u ds : Bytes)
      → length u ≤ length q
      → All Digit ds
      → last_index (u ++ ds) (q ++ x ∷ []) ≡ none
  unfolding last_index
  last_index-digits q [] [] h d = ground (arith, has_prefix-digits q [] [] h d)
  last_index-digits q [] (c ∷ ds) h d =
      ground (arith, has_prefix-digits q [] (c ∷ ds) h d, last_index-digits q [] ds h d.1)
  last_index-digits q (b ∷ u) ds h d =
      ground (arith, has_prefix-digits q (b ∷ u) ds h d, last_index-digits q u ds (omega arith) d)

last_index-append :
    (b s pat : Bytes) (i : ℕ)
    → last_index s pat ≡ some i
    → last_index (b ++ s) pat ≡ some (length b + i)
unfolding last_index
last_index-append [] s pat i h = h ∙ ap some (omega arith)
last_index-append (c ∷ b) s pat i h = ground (arith, last_index-append b s pat i h)

all_of_All : (ds : Bytes) → All Digit ds → all is_digit ds ≡ true
all_of_All [] d = refl
all_of_All (c ∷ ds) (dc, d) = rw dc (all_of_All ds d)

All-of_all : (ds : Bytes) → all is_digit ds ≡ true → All Digit ds
All-of_all [] h = tt
All-of_all (c ∷ ds) h = (ground arith, All-of_all ds (ground arith))

module _ (x : ℕ) (plain : is_digit x ≡ false) where
  last_index_self :
      (q ds : Bytes) → All Digit ds → last_index ((q ++ x ∷ []) ++ ds) (q ++ x ∷ []) ≡ some 0
  unfolding last_index
  last_index_self [] ds d =
      ground
        (arith, last_index-digits x plain [] [] ds (omega arith) d, has_prefix-append (x ∷ []) ds)
  last_index_self (a ∷ q) ds d = ground (
    arith,
    has_prefix-append (a ∷ q ++ x ∷ []) ds,
    last_index-digits x plain (a ∷ q) (q ++ x ∷ []) ds (omega (arith, length-append q (x ∷ []))) d,
  )

-- What `Format` appends passes the checks.
check_parts-itoa :
    (b : Bytes) (n : ℕ) → b ≢ [] → 0 < n → n < 2 ^ 63 → check_parts b (itoa n) ≡ some (b, n)
unfolding check_parts
check_parts-itoa b n nb p lt =
    let (c, s, e, k) = itoa-head n p in
    ground (arith, e, value-itoa n, all_of_All (itoa n) (itoa-Digit n))

-- A text of digits that passes the test for a leading zero and is not zero has none.
head_not_zero :
    (c : ℕ) (ds : Bytes) → leading_zero (c ∷ ds) ≡ false → 0 < value 0 (c ∷ ds) → c ≢ b'0'
unfolding leading_zero value
head_not_zero c [] h p = ground arith
head_not_zero c (d ∷ ds) h p = ground arith

-- The checks accept only digits that `strconv.Itoa` writes.
check_parts_sound :
    (a ds b : Bytes) (n : ℕ)
    → check_parts a ds ≡ some (b, n)
    → (a ≡ b) × (ds ≡ itoa n) × (b ≢ []) × (0 < n) × (n < 2 ^ 63)
unfolding check_parts
check_parts_sound a [] b n h = cc
check_parts_sound a (c ∷ ds) b n h =
    let parts : (a ≡ b) × (value 0 (c ∷ ds) ≡ n) × (b ≢ []) × (0 < n) × (n < 2 ^ 63) =
      ground arith in
    let dig : All Digit (c ∷ ds) = All-of_all (c ∷ ds) (ground arith) in
    let nz : c ≢ b'0' = head_not_zero c ds (ground arith) (ground arith) in
    (parts.0, sym (itoa-value c ds dig.0 nz dig.1) ∙ ap itoa parts.1, parts.2, parts.3, parts.4)

module _ (m : Matcher) (q : Bytes) (x : ℕ) (ends : m.pre ≡ q ++ x ∷ [])
    (plain : is_digit x ≡ false) where
  last_index-pre :
      (b ds : Bytes) → All Digit ds → last_index (b ++ (m.pre ++ ds)) m.pre ≡ some (length b)
  last_index-pre b ds d =
      last_index-append b (m.pre ++ ds) m.pre 0 (rw ends (last_index_self x plain q ds d))
      ∙ ap some (omega arith)

  trim_rest-itoa :
      (b : Bytes) (n : ℕ)
      → b ≢ []
      → 0 < n
      → n < 2 ^ 63
      → trim_rest m (b ++ (m.pre ++ itoa n)) ≡ some (b, n)
  unfolding trim_rest
  trim_rest-itoa b n nb p lt =
      rw (last_index-pre b (itoa n) (itoa-Digit n), trim_rest)
        (rw (take-length-append, drop-add, drop-length-append, drop-length-append)
          (check_parts-itoa b n nb p lt))

  -- With a literal before the number that does not end in a digit, `TrimOne` takes apart what
  -- `Format` put together, for every non-empty base and every positive number of an int64.
  pub trim_one-format :
      (b : Bytes) (n : ℕ) → b ≢ [] → 0 < n → n < 2 ^ 63 → trim_one m (format m b n) ≡ some (b, n)
  unfolding trim_one format
  trim_one-format b n nb p lt =
      rw (regroup, has_suffix-append, trim_suffix-append) (trim_rest-itoa b n nb p lt)
    where
      regroup : b ++ (m.pre ++ (itoa n ++ m.post)) ≡ (b ++ (m.pre ++ itoa n)) ++ m.post
      regroup = simp append_assoc

trim_rest_sound :
    (m : Matcher) (r b : Bytes) (n : ℕ)
    → trim_rest m r ≡ some (b, n)
    → (r ≡ b ++ (m.pre ++ itoa n)) × (b ≢ []) × (0 < n) × (n < 2 ^ 63)
unfolding trim_rest
trim_rest_sound m r b n h = elim (Option-cases (last_index r m.pre)) [
  | inl absent ↦ absurd (ground arith)
  | inr (i, found) ↦
      let got = check_parts_sound (take i r) (drop (i + length m.pre) r) b n (ground arith) in
      (last_index_sound r m.pre i found ∙ rw (got.0, got.1), got.2, got.3, got.4)
]

-- `TrimOne` accepts only what `Format` writes: the path is the returned base with the suffix of
-- the returned number, the base is not empty, and the number is positive and fits an int64.
pub trim_one_sound :
    (m : Matcher) (path b : Bytes) (n : ℕ)
    → trim_one m path ≡ some (b, n)
    → (path ≡ format m b n) × (b ≢ []) × (0 < n) × (n < 2 ^ 63)
unfolding trim_one format
trim_one_sound m path b n h = elim (Bool-cases (has_suffix path m.post)) [
  | inr bare ↦ absurd (ground arith)
  | inl ends ↦
      let got = trim_rest_sound m (trim_suffix path m.post) b n (ground arith) in
      (
        trim_suffix_sound path m.post ends ∙ (ap (λ t. t ++ m.post) got.0 ∙ simp append_assoc),
        got.1,
        got.2,
        got.3,
      )
]
