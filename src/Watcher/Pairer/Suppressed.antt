-- ===== src/Watcher/Pairer/Suppressed.antt =====
-- The window in which a paired rename of a directory has the events below it dropped.
use home_drive.Base.{
  ◌≡◌, refl, sym, ◌≤◌, Bool, true, false, ◌||◌, some, [], ◌∷◌, ltb, if◌then◌else◌, arith,
  Bool-cases, inl, inr, ◌⊎◌, ◌∙◌, ap,
}
use mathlib.Core.Path.{subst}
use home_drive.Base.Text.{
  Bytes, bytes_eq, bytes_eq_iff, bytes_eq_refl, has_prefix, trim_suffix, trim_suffix-append,
}
use home_drive.Base.Time.{Time}
use home_drive.Base.Maps.{Map, lookup, store, lookup-store, lookup-store-other}
use home_drive.Base.{then-branch, else-branch}
use home_drive.Watcher.Pairer.{Pairer, below, suppress_pair, scan_suppressed, is_suppressed}

-- The old and the new path of a rename, and all below them.
abbrev pub Under : Bytes → Bytes → Bytes → Type 0
Under from to p =
    ((p ≡ from) ⊎ (has_prefix p (below from) ≡ true))
    ⊎ ((p ≡ to) ⊎ (has_prefix p (below to) ≡ true))

-- The test of the loop of `isSuppressed` on one prefix.
abbrev matches : Bytes → Bytes → Bool
matches path prefix = bytes_eq path (trim_suffix prefix (b'/' ∷ [])) || has_prefix path prefix

kept_true :
    (a b : Bool) (more : Map Time × Bool) (x y : Map Time)
    → ((a ≡ false) × (b ≡ true)) ⊎ (more.1 ≡ true)
    → (if a then more else if b then (x, true) else (y, more.1)).1 ≡ true
kept_true a true more x y (inl (e, f)) = rw e refl
kept_true a false more x y (inl (e, f)) = absurd (cc f)
kept_true true b more x y (inr e) = e
kept_true false true more x y (inr e) = refl
kept_true false false more x y (inr e) = e

not_later : (now t until : Time) → t ≡ until → now ≤ until → ltb t now ≡ false
not_later now t until e h = ground arith

scan_found :
    (path prefix : Bytes) (until now : Time) (m : Map Time)
    → lookup prefix m ≡ some until
    → now ≤ until
    → matches path prefix ≡ true
    → (scan_suppressed path now m).1 ≡ true
unfolding lookup scan_suppressed
scan_found path prefix until now [] e h c = absurd (cc e)
scan_found path prefix until now ((q, t) ∷ m) e h c = elim (Bool-cases (bytes_eq prefix q)) [
  | inl same ↦
      let first : some t ≡ some until = sym (then-branch _ _ same) ∙ e in
      kept_true _ _ _ _ _ (
        inl (
          not_later now t until (cc first) h,
          subst (λ z. matches path z ≡ true) ((bytes_eq_iff prefix q).0 same) c,
        ))
  | inr other ↦
      kept_true (ltb t now) (matches path q) (scan_suppressed path now m) ((q, t) ∷ m)
        ((q, t) ∷ (scan_suppressed path now m).0)
        (inr (scan_found path prefix until now m (sym (else-branch _ _ other) ∙ e) h c))
]

matches_self : (p : Bytes) → matches p (below p) ≡ true
matches_self p =
    ap (λ t. bytes_eq p t || has_prefix p (below p)) (trim_suffix-append p (b'/' ∷ []))
    ∙ ap (λ b. b || has_prefix p (below p)) (bytes_eq_refl p)

or_true : (a b : Bool) → b ≡ true → a || b ≡ true
or_true true b e = refl
or_true false b e = e

from_until :
    (from to : Bytes) (until : Time) (m : Map Time)
    → lookup (below from) (store (below to) until (store (below from) until m)) ≡ some until
from_until from to until m = elim (Bool-cases (bytes_eq (below from) (below to))) [
  | inl e ↦
      subst (λ k. lookup k (store (below to) until (store (below from) until m)) ≡ some until)
        (sym ((bytes_eq_iff _ _).0 e)) (lookup-store (below to) until _)
  | inr e ↦ lookup-store-other (below from) (below to) until _ e ∙ lookup-store (below from) until m
]

pub pair_suppressed :
    (from to p : Bytes) (until now : Time) (s : Pairer)
    → Under from to p
    → now ≤ until
    → (is_suppressed p now (suppress_pair from to until s)).1 ≡ true
unfolding is_suppressed suppress_pair
pair_suppressed from to p until now s (inl (inl e)) h =
    scan_found p (below from) until now _ (from_until from to until _) h
      (subst (λ q. matches q (below from) ≡ true) (sym e) (matches_self from))
pair_suppressed from to p until now s (inl (inr e)) h =
    scan_found p (below from) until now _ (from_until from to until _) h (or_true _ _ e)
pair_suppressed from to p until now s (inr (inl e)) h =
    scan_found p (below to) until now _ (lookup-store (below to) until _) h
      (subst (λ q. matches q (below to) ≡ true) (sym e) (matches_self to))
pair_suppressed from to p until now s (inr (inr e)) h =
    scan_found p (below to) until now _ (lookup-store (below to) until _) h (or_true _ _ e)
