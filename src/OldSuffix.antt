-- ===== src/OldSuffix.antt =====
-- internal/oldsuffix/oldsuffix.go: the suffix of a conflict loser, `.old.<N>` by default. Paths
-- are byte strings, and `n` is a natural number since the program formats no negative one.
pub mod Decimal
pub mod RoundTrip
pub mod Bases
pub mod Numbers
mod Tests
unfoldable pub use Decimal.{itoa}
use home_drive.Base.{
  ℕ, zero, suc, ◌+◌, ◌*◌, ◌^◌, ◌<◌, Bool, true, false, not, ◌||◌, ◌&&◌, Option, none, some,
}
use home_drive.Base.{
  List, [], ◌∷◌, ◌++◌, ltb, leb, ◌==◌, if◌then◌else◌, length, take, drop, is_empty, all,
}
use home_drive.Base.Text.{Bytes, codes, has_prefix, has_suffix, trim_suffix, last_index}
use mathlib.Core.Option
use Decimal.{value, is_digit}

pub record Matcher : Type 0 where
  pub pre : Bytes
  pub post : Bytes

abbrev pub default_format : Bytes
default_format = codes ".old.%d"

abbrev pub max_depth : ℕ
max_depth = 64

abbrev pub max_probe : ℕ
max_probe = 2 ^ 16

abbrev percent : ℕ
percent = b'%'

-- `strings.Count(s, "%")`
unfoldable pub count_percent : Bytes → ℕ
count_percent [] = 0
count_percent (c ∷ s) = (if c == percent then 1 else 0) + count_percent s

-- `strings.Cut(s, sep)`: the text before and after the first occurrence of `sep`.
unfoldable pub cut : Bytes → Bytes → Option (Bytes × Bytes)
unfolding has_prefix
cut [] sep = if has_prefix [] sep then some ([], drop (length sep) []) else none
cut (c ∷ s) sep =
    let rest = Option.map (λ (a, b). (c ∷ a, b)) (cut s sep) in
    if has_prefix (c ∷ s) sep then some ([], drop (length sep) (c ∷ s)) else rest

-- `none` is `ErrBadFormat`.
unfoldable pub compile : Bytes → Option Matcher
unfolding count_percent cut
compile format = if not (count_percent format == 1) then none else elim (cut format (codes "%d")) [
  | none ↦ none
  | some (pre, post) ↦ if is_empty pre then none else some (record { pre = pre; post = post })
]

-- An empty format yields the default one.
unfoldable pub new : Bytes → Option Matcher
unfolding compile
new format = compile (if is_empty format then default_format else format)

unfoldable pub format : Matcher → Bytes → ℕ → Bytes
format m base n = base ++ (m.pre ++ (itoa n ++ m.post))

-- `strconv.Atoi` on a non-empty text of digits: `none` if the number does not fit an int64.
unfoldable pub atoi : Bytes → Option ℕ
unfolding value
atoi digits = if ltb (value 0 digits) (2 ^ 63) then some (value 0 digits) else none

-- `len(digits) > 1 && digits[0] == '0'`
unfoldable pub leading_zero : Bytes → Bool
leading_zero [] = false
leading_zero (c ∷ s) = not (is_empty s) && c == b'0'

-- The checks of `TrimOne` on the base and the digits around the last suffix.
unfoldable pub check_parts : Bytes → Bytes → Option (Bytes × ℕ)
unfolding atoi leading_zero is_digit
check_parts base digits =
    if is_empty digits || (not (all is_digit digits) || leading_zero digits)
    then none
    else elim (atoi digits) [
      | none ↦ none
      | some num ↦ if ltb num 1 || is_empty base then none else some (base, num)
    ]

-- `TrimOne` after the literal that follows the number is gone.
unfoldable pub trim_rest : Matcher → Bytes → Option (Bytes × ℕ)
trim_rest m rest = elim (last_index rest m.pre) [
  | none ↦ none
  | some i ↦ check_parts (take i rest) (drop (i + length m.pre) rest)
]

unfoldable pub trim_one : Matcher → Bytes → Option (Bytes × ℕ)
unfolding trim_rest
trim_one m path =
    if not (has_suffix path m.post) then none else trim_rest m (trim_suffix path m.post)

-- The loop of `Base` with the rounds that are left before `depth` reaches `maxDepth`.
unfoldable pub strip : ℕ → Matcher → Bytes → ℕ → Bytes × ℕ
strip zero m path depth = (path, depth)
strip (suc k) m path depth = elim (trim_one m path) [
  | none ↦ (path, depth)
  | some (next, _) ↦ strip k m next (depth + 1)
]

unfoldable pub base : Matcher → Bytes → Bytes × ℕ
base m path = strip max_depth m path 0

unfoldable pub is_old : Matcher → Bytes → Bool
is_old m path = elim (trim_one m path) [ none ↦ false | some _ ↦ true ]

-- The loop of `NextOldN` from `n`, with the rounds that are left before `n` passes `maxProbe`.
unfoldable pub probe : ℕ → Matcher → (Bytes → Bool) → Bytes → ℕ → ℕ
probe zero m exists base n = max_probe
probe (suc k) m exists base n = elim (exists (format m base n)) [
  | true ↦ probe k m exists base (n + 1)
  | false ↦ n
]

-- The base that a new loser hangs off: the stripped one if that is a known path.
unfoldable pub collapse : Matcher → Bytes → (Bytes → Bool) → Bytes
collapse m path exists =
    let (stripped, depth) = base m path in
    if ltb 0 depth && not (exists stripped) then path else stripped

unfoldable pub next_old_n : Matcher → Bytes → (Bytes → Bool) → Bytes × ℕ
next_old_n m path exists = let b = collapse m path exists in (b, probe max_probe m exists b 1)
