-- ===== src/OldSuffix/Tests.antt =====
-- Runs of the suffix functions on paths of the package's own tests, and the theorems at such data.
use home_drive.Base.{
  ℕ, ◌≡◌, refl, ◌≢◌, some, none, [], Bool, true, false, arith, ◌<◌, ◌^◌, ◌||◌, ◌≤◌,
}
use home_drive.Base.Text.{Bytes, codes, bytes_eq, has_suffix, trim_suffix, last_index}
use home_drive.OldSuffix.{
  Matcher, new, itoa, format, max_probe, trim_one, base, strip, is_old, check_parts, next_old_n,
  collapse, probe,
}
use home_drive.OldSuffix.Decimal.{is_digit}
use home_drive.OldSuffix.RoundTrip.{trim_one_sound}
use home_drive.OldSuffix.Numbers.{next_old_n-free}

abbrev default_matcher : Matcher
default_matcher = record { pre = codes ".old."; post = [] }

new_default : new [] ≡ some default_matcher
unfolding new
new_default = refl

new_bad_verb : new (codes ".old.%s") ≡ none
unfolding new
new_bad_verb = refl

trim_nested : trim_one default_matcher (codes "f.md.old.1.old.12") ≡ some (codes "f.md.old.1", 12)
unfolding trim_one has_suffix trim_suffix last_index check_parts
trim_nested = refl

trim_leading_zero : trim_one default_matcher (codes "f.md.old.007") ≡ none
unfolding trim_one has_suffix trim_suffix last_index check_parts
trim_leading_zero = refl

base_nested : base default_matcher (codes "f.md.old.1.old.1.old.1") ≡ (codes "f.md", 3)
unfolding base strip trim_one has_suffix trim_suffix last_index check_parts
base_nested = refl

-- The paths that are taken: a base and its first loser.
known : Bytes → Bool
unfolding bytes_eq
known p = bytes_eq p (codes "f") || bytes_eq p (codes "f.old.1")

next_repeat : next_old_n default_matcher (codes "f.old.1") known ≡ (codes "f", 2)
unfolding next_old_n collapse probe format itoa known base strip trim_one has_suffix trim_suffix
    last_index check_parts
next_repeat = refl

digit : is_digit b'.' ≡ false
unfolding is_digit
digit = refl

trimmed : trim_one default_matcher (codes "f.old.3") ≡ some (codes "f", 3)
unfolding format itoa known base strip trim_one has_suffix trim_suffix last_index check_parts
trimmed = refl

trim_one-sound_example :
    (codes "f.old.3" ≡ format default_matcher (codes "f") 3)
    × (codes "f" ≢ [])
    × (0 < 3)
    × (3 < 2 ^ 63)
trim_one-sound_example = trim_one_sound default_matcher (codes "f.old.3") (codes "f") 3 trimmed

free_two :
    known (format default_matcher (next_old_n default_matcher (codes "f.old.1") known).0 2) ≡ false
unfolding next_old_n collapse probe format itoa known base strip trim_one has_suffix trim_suffix
    last_index check_parts
free_two = refl

next_old_n-free_example :
    let r = next_old_n default_matcher (codes "f.old.1") known in
    (known (format default_matcher r.0 r.1) ≡ false)
    × (0 < r.1)
    × (r.1 ≤ max_probe)
    × ((j : ℕ) → 0 < j → j < r.1 → known (format default_matcher r.0 j) ≡ true)
next_old_n-free_example =
    next_old_n-free default_matcher (codes "f.old.1") known 2 (omega arith) (omega arith) free_two

plain_base : is_old default_matcher (codes "f") ≡ false
unfolding is_old trim_one has_suffix trim_suffix last_index check_parts
plain_base = refl

known_base : known (codes "f") ≡ true
unfolding known
known_base = refl
