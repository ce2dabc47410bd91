-- ===== src/OldSuffix/Numbers.antt =====
-- `NextOldN` finds the smallest free number, when one of the 65,536 candidates is free.
use home_drive.Base.{ℕ, zero, suc, ◌+◌, ◌≤◌, ◌<◌, ◌≡◌, refl, ◌≢◌, Bool, some}
use home_drive.Base.{[], ◌∷◌, ◌++◌, ◌^◌, arith, Bool-cases, inl, inr, true, false}
use native.Mathlib.Decide.{dec_lt}
use home_drive.Base.Text.{Bytes}
use home_drive.OldSuffix.RoundTrip.{trim_one-format}
use home_drive.OldSuffix.Decimal.{is_digit}
use home_drive.OldSuffix.{
  Matcher, format, trim_one, is_old, strip, probe, base, collapse, next_old_n, max_probe,
}

module _ (m : Matcher) (exists : Bytes → Bool) (b : Bytes) where
  probe-free :
      (k n f : ℕ)
      → n ≤ f
      → f < n + k
      → exists (format m b f) ≡ false
      → (exists (format m b (probe k m exists b n)) ≡ false)
        × (n ≤ probe k m exists b n)
        × (probe k m exists b n ≤ f)
        × ((j : ℕ) → n ≤ j → j < probe k m exists b n → exists (format m b j) ≡ true)
  unfolding probe
  probe-free zero n f l h free = absurd (omega arith)
  probe-free (suc k) n f l h free = elim (Bool-cases (exists (format m b n))) [
    | inr here ↦ rw (here, probe) (here, omega arith, l, λ j a c. absurd (omega arith))
    | inl taken ↦
        let apart : n ≢ f = λ e. cc (taken, free, e) in
        let (p0, p1, p2, p3) = probe-free k (n + 1) f (omega arith) (omega arith) free in
        rw (taken, probe)
          (
            p0,
            omega (arith, p1),
            p2,
            λ j a c. elim (dec_lt n j) [
              | yes past ↦ p3 j (omega arith) c
              | no start ↦ let same : j ≡ n = omega arith in rw same taken
            ],
          )
  ]

  probe-full :
      (k n : ℕ)
      → ((j : ℕ) → n ≤ j → j < n + k → exists (format m b j) ≡ true)
      → probe k m exists b n ≡ max_probe
  unfolding probe
  probe-full zero n all_taken = refl
  probe-full (suc k) n all_taken =
      rw (all_taken n (omega arith) (omega arith), probe)
        (probe-full k (n + 1) (λ j a c. all_taken j (omega arith) (omega arith)))

-- If one of the numbers 1 to 65,536 is free behind the base that `NextOldN` returns, then the
-- number that it returns is free, lies in that range, and every smaller positive one is taken.
pub next_old_n-free :
    (m : Matcher) (path : Bytes) (exists : Bytes → Bool) (f : ℕ)
    → 0 < f
    → f ≤ max_probe
    → exists (format m (next_old_n m path exists).0 f) ≡ false
    → (exists (format m (next_old_n m path exists).0 (next_old_n m path exists).1) ≡ false)
      × (0 < (next_old_n m path exists).1)
      × ((next_old_n m path exists).1 ≤ max_probe)
      × ((j : ℕ)
          → 0 < j
          → j < (next_old_n m path exists).1
          → exists (format m (next_old_n m path exists).0 j) ≡ true)
unfolding next_old_n
next_old_n-free m path exists f p q free =
    let (r0, r1, r2, r3) =
      probe-free m exists (collapse m path exists) max_probe 1 f p (omega arith) free in
    (r0, r1, omega (arith, r2), r3)

-- If all the numbers 1 to 65,536 are taken, `NextOldN` returns 65,536, so that the name which its
-- callers build is one that exists.
next_old_n-full :
    (m : Matcher) (path : Bytes) (exists : Bytes → Bool)
    → ((j : ℕ) → 0 < j → j ≤ max_probe → exists (format m (next_old_n m path exists).0 j) ≡ true)
    → ((next_old_n m path exists).1 ≡ max_probe)
      × (exists (format m (next_old_n m path exists).0 (next_old_n m path exists).1) ≡ true)
unfolding next_old_n
next_old_n-full m path exists taken =
    let last : probe max_probe m exists (collapse m path exists) 1 ≡ max_probe =
      probe-full m exists (collapse m path exists) max_probe 1 (λ j a b. taken j a (omega arith)) in
    (last, rw last (taken max_probe (omega arith) (omega arith)))

strip-plain :
    (k : ℕ) (m : Matcher) (b : Bytes) (d : ℕ) → is_old m b ≡ false → strip k m b d ≡ (b, d)
unfolding strip is_old
strip-plain zero m b d h = refl
strip-plain (suc k) m b d h = ground arith

strip-format :
    (k : ℕ) (m : Matcher) (b : Bytes) (n d : ℕ)
    → trim_one m (format m b n) ≡ some (b, n)
    → is_old m b ≡ false
    → strip (suc k) m (format m b n) d ≡ (b, d + 1)
unfolding strip
strip-format k m b n d h plain = rw (h, strip) (strip-plain k m b (d + 1) plain)

-- A repeat conflict on a loser whose base is a known path hangs off that base: with a literal
-- before the number that does not end in a digit, and a base that carries no suffix itself.
next_old_n-format :
    (m : Matcher) (q : Bytes) (x : ℕ)
    → m.pre ≡ q ++ x ∷ []
    → is_digit x ≡ false
    → (b : Bytes) (n : ℕ) (exists : Bytes → Bool) → b ≢ []
    → 0 < n
    → n < 2 ^ 63
    → is_old m b ≡ false
    → exists b ≡ true
    → (next_old_n m (format m b n) exists).0 ≡ b
unfolding next_old_n collapse base
next_old_n-format m q x ends digit b n exists nb p lt plain known =
    let found = trim_one-format m q x ends digit b n nb p lt in
    rw (strip-format 63 m b n 0 found plain) (rw known refl)
