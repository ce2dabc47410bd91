-- ===== src/OldSuffix/Bases.antt =====
-- `Base` strips suffixes until there is none, or 64 are gone.
use home_drive.Base.{ℕ, zero, suc, ◌+◌, ◌≤◌, ◌<◌, ◌≡◌}
use home_drive.Base.{arith, Option-cases, ◌⊎◌, inl, inr, false}
use mathlib.Core.Path.{subst}
use home_drive.Base.Text.{Bytes}
use home_drive.OldSuffix.{Matcher, format, trim_one, strip, base, is_old, max_depth}
use home_drive.OldSuffix.RoundTrip.{trim_one_sound}

-- `Chain m b d path`: `path` is `b` with `d` suffixes behind it.
pub data Chain (m : Matcher) (b : Bytes) : ℕ → Bytes → Type 0 where
  bare : Chain m b 0 b
  link :
      {d : ℕ} {inner path : Bytes} (n : ℕ)
      → Chain m b d inner
      → 0 < n
      → path ≡ format m inner n
      → Chain m b (suc d) path

strip-Chain :
    (k : ℕ) (m : Matcher) (path : Bytes) (depth : ℕ)
    → (d : ℕ) × Chain m (strip k m path depth).0 d path × ((strip k m path depth).1 ≡ depth + d)
unfolding strip
strip-Chain zero m path depth = (0, bare, omega arith)
strip-Chain (suc k) m path depth = elim (Option-cases (trim_one m path)) [
  | inl none_left ↦ rw (none_left, strip) (0, bare, omega arith)
  | inr ((next, n), found) ↦
      let (d, c, e) = strip-Chain k m next (depth + 1) in
      let ok = trim_one_sound m path next n found in
      rw (found, strip) (suc d, link n c ok.2 ok.0, omega (arith, e))
]

strip_complete :
    (k : ℕ) (m : Matcher) (path : Bytes) (depth : ℕ)
    → (is_old m (strip k m path depth).0 ≡ false) ⊎ ((strip k m path depth).1 ≡ depth + k)
unfolding strip is_old
strip_complete zero m path depth = inr (omega arith)
strip_complete (suc k) m path depth = elim (Option-cases (trim_one m path)) [
  | inl none_left ↦ rw (none_left, strip) (inl (rw (none_left, is_old)))
  | inr ((next, n), found) ↦ rw (found, strip) (ground (arith, strip_complete k m next (depth + 1)))
]

strip-bound :
    (k : ℕ) (m : Matcher) (path : Bytes) (depth : ℕ) → (strip k m path depth).1 ≤ depth + k
unfolding strip
strip-bound zero m path depth = omega arith
strip-bound (suc k) m path depth = elim (Option-cases (trim_one m path)) [
  | inl none_left ↦ rw (none_left, strip) (omega arith)
  | inr ((next, n), found) ↦ rw (found, strip) (omega (arith, strip-bound k m next (depth + 1)))
]

-- `Base` returns a base and a depth of at most 64 such that the path is the base with that many
-- suffixes behind it, each with a positive number, and either the base has no suffix left or the
-- depth is 64.
base-Chain :
    (m : Matcher) (path : Bytes)
    → Chain m (base m path).0 (base m path).1 path
      × ((base m path).1 ≤ max_depth)
      × ((is_old m (base m path).0 ≡ false) ⊎ ((base m path).1 ≡ max_depth))
unfolding base
base-Chain m path =
    let (d, c, e) = strip-Chain max_depth m path 0 in
    let count : d ≡ (strip max_depth m path 0).1 = omega (arith, e) in
    (
      subst (λ k. Chain m (strip max_depth m path 0).0 k path) count c,
      omega (arith, strip-bound max_depth m path 0),
      bounded (strip_complete max_depth m path 0),
    )
  where
    bounded :
        (is_old m (strip max_depth m path 0).0 ≡ false)
          ⊎ ((strip max_depth m path 0).1 ≡ 0 + max_depth)
        → (is_old m (strip max_depth m path 0).0 ≡ false)
          ⊎ ((strip max_depth m path 0).1 ≡ max_depth)
    bounded (inl plain) = inl plain
    bounded (inr full) = inr (omega arith)
