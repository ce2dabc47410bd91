-- ===== src/Base/Text.antt =====
-- Go strings as lists of bytes, with the functions of Go's `strings` package that the program
-- calls: HasPrefix, HasSuffix, TrimSuffix, LastIndex, Cut.
use Prim.Native.Char.{code}
use Prim.Native.String.{String}
use home_drive.Base.Tests.{◌==◌, if◌then◌else◌, ltb}
use home_drive.Base.Lists.{length, take, drop, take-append-drop, length-append}
use home_drive.Base.Lists.{take-length-append, drop-length-append}
use Prim.Native.Nat.{ℕ, suc, ◌+◌, ◌-◌}
use mathlib.Core.Path.{◌≡◌, refl, sym, ap, ◌∙◌}
use mathlib.Core.Logic.{◌↔◌}
use mathlib.Core.Bool.{Bool, true, false, not, ◌&&◌}
use mathlib.Core.Option.{Option, none, some}
use mathlib.Core.List.{List, [], ◌∷◌, ◌++◌}
use native.Mathlib.Omega.{arith}

abbrev pub Bytes : Type 0
Bytes = List ℕ

-- The code points of a literal: its bytes, since the literals are ASCII.
abbrev pub codes : String → Bytes
codes String.[] = []
codes (String.◌∷◌ c s) = code c ∷ codes s

unfoldable pub bytes_eq : Bytes → Bytes → Bool
bytes_eq [] [] = true
bytes_eq [] (y ∷ ys) = false
bytes_eq (x ∷ xs) [] = false
bytes_eq (x ∷ xs) (y ∷ ys) = x == y && bytes_eq xs ys

-- The order of Go strings.
unfoldable pub bytes_lt : Bytes → Bytes → Bool
bytes_lt a [] = false
bytes_lt [] (d ∷ b) = true
bytes_lt (c ∷ a) (d ∷ b) =
    let later = bytes_lt a b in if ltb c d then true else if ltb d c then false else later

unfoldable pub has_prefix : Bytes → Bytes → Bool
has_prefix s [] = true
has_prefix [] (p ∷ ps) = false
has_prefix (x ∷ s) (p ∷ ps) = x == p && has_prefix s ps

-- `len(s) >= len(suffix) && s[len(s)-len(suffix):] == suffix`
unfoldable pub has_suffix : Bytes → Bytes → Bool
unfolding bytes_eq
has_suffix s suffix =
    not (ltb (length s) (length suffix)) && bytes_eq (drop (length s - length suffix) s) suffix

unfoldable pub trim_suffix : Bytes → Bytes → Bytes
unfolding has_suffix
trim_suffix s suffix = if has_suffix s suffix then take (length s - length suffix) s else s

-- The index of the last occurrence; `none` is Go's -1.
unfoldable pub last_index : Bytes → Bytes → Option ℕ
unfolding has_prefix
last_index [] pat = if has_prefix [] pat then some 0 else none
last_index (c ∷ s) pat = elim (last_index s pat) [
  | some i ↦ some (suc i)
  | none ↦ if has_prefix (c ∷ s) pat then some 0 else none
]

pub bytes_eq_iff : (a b : Bytes) → (bytes_eq a b ≡ true) ↔ (a ≡ b)
unfolding bytes_eq
bytes_eq_iff [] [] = (λ _. refl, λ _. refl)
bytes_eq_iff [] (y ∷ ys) = (λ h. cc, λ h. cc)
bytes_eq_iff (x ∷ xs) [] = (λ h. cc, λ h. cc)
bytes_eq_iff (x ∷ xs) (y ∷ ys) = ground (arith, bytes_eq_iff xs ys)

pub bytes_eq_refl : (a : Bytes) → bytes_eq a a ≡ true
bytes_eq_refl a = (bytes_eq_iff a a).1 refl

pub has_prefix-append : (p s : Bytes) → has_prefix (p ++ s) p ≡ true
unfolding has_prefix
has_prefix-append [] s = refl
has_prefix-append (x ∷ p) s = ground (arith, has_prefix-append p s)

pub has_prefix_sound : (s p : Bytes) → has_prefix s p ≡ true → s ≡ p ++ drop (length p) s
unfolding has_prefix
has_prefix_sound s [] h = refl
has_prefix_sound [] (x ∷ p) h = cc
has_prefix_sound (y ∷ s) (x ∷ p) h = ground (arith, has_prefix_sound s p)

add_sub : (a b : ℕ) → a + b - b ≡ a
add_sub a b = omega arith

pub has_suffix-append : (s p : Bytes) → has_suffix (s ++ p) p ≡ true
unfolding has_suffix
has_suffix-append s p =
    rw (length-append, add_sub, drop-length-append, bytes_eq_refl) (ground arith)

pub trim_suffix-append : (s p : Bytes) → trim_suffix (s ++ p) p ≡ s
unfolding trim_suffix
trim_suffix-append s p =
    rw (has_suffix-append s p) (rw (length-append, add_sub) (take-length-append s p))

pub trim_suffix_sound : (s p : Bytes) → has_suffix s p ≡ true → s ≡ trim_suffix s p ++ p
unfolding trim_suffix
trim_suffix_sound s p h = rw h (sym (same ∙ take-append-drop (length s - length p) s))
  where
    tail_eq : drop (length s - length p) s ≡ p
    tail_eq = (bytes_eq_iff (drop (length s - length p) s) p).0 (unfold has_suffix in ground arith)

    same :
        take (length s - length p) s ++ p
        ≡ take (length s - length p) s ++ drop (length s - length p) s
    same = ap (λ t. take (length s - length p) s ++ t) (sym tail_eq)
