-- ===== src/Remote/MemFs/Resumes.antt =====
-- internal/rcloneclient/memfs.go: the tokens of `ListChanges`.
use home_drive.Base.{
  ℕ, zero, suc, ◌+◌, ◌<◌, ◌^◌, ◌≡◌, refl, sym, ap, ◌∙◌, arith, false, Option, some, List, [], ◌∷◌,
  ◌++◌, append_assoc, append-nil, is_empty, length, length-append, drop, leb, drop-length-append,
  if◌then◌else◌, All, else-branch,
}
use home_drive.Base.Int.{pos}
use home_drive.Base.Text.{Bytes}
use home_drive.OldSuffix.Decimal.{
  itoa, itoa-head, digits, is_digit, value, value-itoa, itoa-Digit, Digit,
}
use home_drive.Syncer.Types.{Change, Changes}
use home_drive.Syncer.Go.{Result, ok}
use home_drive.Remote.MemFs.{
  MemFs, add_change, scan_int, scan_digits, leading_digits, changes_from, list_changes,
}

-- Changes that come one after the other.
abbrev pub add_changes : List Change → MemFs → MemFs
add_changes [] m = m
add_changes (c ∷ cs) m = add_changes cs (add_change c m)

changes-add_changes : (cs : List Change) (m : MemFs) → (add_changes cs m).changes ≡ m.changes ++ cs
unfolding add_change
changes-add_changes [] m = sym (append-nil m.changes)
changes-add_changes (c ∷ cs) m =
    changes-add_changes cs (add_change c m) ∙ append_assoc m.changes (c ∷ []) cs

leading_digits-All : (s : Bytes) → All Digit s → leading_digits s ≡ s
unfolding leading_digits is_digit
leading_digits-All [] h = refl
leading_digits-All (c ∷ s) h = ground (arith, leading_digits-All s h.1)

scan_int-digits :
    (s : Bytes) (n : ℕ)
    → All Digit s
    → is_empty s ≡ false
    → value 0 s ≡ n
    → n < 2 ^ 63
    → scan_int s ≡ some (pos n)
unfolding scan_int scan_digits
scan_int-digits [] n h e v b = cc
scan_int-digits (c ∷ s) n h e v b = ground (arith, leading_digits-All (c ∷ s) h)

itoa-nonempty : (n : ℕ) → is_empty (itoa n) ≡ false
unfolding itoa digits
itoa-nonempty zero = refl
itoa-nonempty (suc n) = let (c, s, e, _) = itoa-head (suc n) (omega arith) in rw e refl

-- The changes from the end of a prefix on.
from_prefix :
    (xs ys : List Change)
    → (if leb (length (xs ++ ys)) (length xs) then [] else drop (length xs) (xs ++ ys)) ≡ ys
from_prefix xs [] =
    rw (append-nil xs)
      (ground (arith, ap (λ z. drop (length xs) z) (append-nil xs), drop-length-append xs []))
from_prefix xs (y ∷ ys) = ground (arith, length-append xs (y ∷ ys), drop-length-append xs (y ∷ ys))

abbrev page : List Change → ℕ → Option (Result Changes)
page items n = some (ok (record { items = items; next_page_token = itoa n }))

changes_from-prefix :
    (m : MemFs) (xs ys : List Change)
    → m.changes ≡ xs ++ ys
    → changes_from m (some (pos (length xs))) ≡ page ys (length (xs ++ ys))
unfolding changes_from
changes_from-prefix m xs ys e =
    ap
      (λ z. some (
        ok (record {
          items = if leb (length z) (length xs) then [] else drop (length xs) z;
          next_page_token = itoa (length z);
        })))
      e
    ∙ ap (λ z. some (ok (record { items = z; next_page_token = itoa (length (xs ++ ys)) })))
        (from_prefix xs ys)

-- Without a token `ListChanges` returns all changes so far. With the token of that call, whatever
-- changes come in between, it returns exactly those, and a token for what comes after them.
pub list_changes-Resumes :
    (m : MemFs) (cs : List Change)
    → length m.changes < 2 ^ 63
    → (list_changes [] m ≡ page m.changes (length m.changes))
      × (list_changes (itoa (length m.changes)) (add_changes cs m)
          ≡ page cs (length m.changes + length cs))
unfolding list_changes
list_changes-Resumes m cs b = (
  changes_from-prefix m [] m.changes refl,
  else-branch _ _ (itoa-nonempty (length m.changes))
      ∙ (ap (λ z. changes_from (add_changes cs m) z)
            (scan_int-digits (itoa (length m.changes)) (length m.changes)
              (itoa-Digit (length m.changes)) (itoa-nonempty (length m.changes))
              (value-itoa (length m.changes)) b)
          ∙ (changes_from-prefix (add_changes cs m) m.changes cs (changes-add_changes cs m)
              ∙ ap (page cs) (length-append m.changes cs))),
)
