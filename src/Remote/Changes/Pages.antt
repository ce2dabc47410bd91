-- ===== src/Remote/Changes/Pages.antt =====
-- The poll ends, and how it fails.
use home_drive.Base.{
  ℕ, zero, suc, ◌≡◌, sym, ◌+◌, ◌<◌, ◌≤◌, Bool, true, false, Option, none, some, List, [], ◌++◌,
  is_empty, arith, ◌⊎◌, inl, inr, ◌==◌, ==_iff, Bool-cases,
}
use mathlib.Core.Path.{subst}
use home_drive.Base.Text.{Bytes}
use home_drive.Syncer.Types.{Change}
use home_drive.Remote.Changes.{
  Cache, DriveError, DriveChange, PageAnswer, page_failed, page, Polled, poll_pages, poll_changes,
  translate_all,
}

-- The answer has no page after it.
abbrev pub IsLast : PageAnswer → Type 0
IsLast (page_failed e) = Unit
IsLast (page chs new_start next) = (is_empty new_start ≡ false) ⊎ (is_empty next ≡ true)

abbrev pub Returns : Option Polled → Type 0
Returns none = ⊥
Returns (some r) = Unit

branch :
    (x y : Bool) (p q : Polled) (n : Option Polled)
    → ((x ≡ false) ⊎ (y ≡ true)) ⊎ Returns n
    → Returns (elim x [ false ↦ some p | true ↦ elim y [ false ↦ n | true ↦ some q ] ])
branch false y p q n h = tt
branch true true p q n h = tt
branch true false p q n (inl (inl e)) = absurd (cc e)
branch true false p q n (inl (inr e)) = absurd (cc e)
branch true false p q n (inr h) = h

answered :
    (a : PageAnswer) (bad : DriveError → Polled) (caught_up : List DriveChange → Bytes → Polled)
    (next : List DriveChange → Bytes → Option Polled) (stay : List DriveChange → Polled)
    → IsLast a ⊎ ((chs : List DriveChange) (t : Bytes) → Returns (next chs t))
    → Returns (elim a [
      | page_failed e ↦ some (bad e)
      | page chs s t ↦ elim (is_empty s) [
        | false ↦ some (caught_up chs s)
        | true ↦ elim (is_empty t) [ false ↦ next chs t | true ↦ some (stay chs) ]
      ]
    ])
answered (page_failed e) bad caught_up next stay h = tt
answered (page chs s t) bad caught_up next stay (inl h) =
    branch (is_empty s) (is_empty t) (caught_up chs s) (stay chs) (next chs t) (inl h)
answered (page chs s t) bad caught_up next stay (inr h) =
    branch (is_empty s) (is_empty t) (caught_up chs s) (stay chs) (next chs t) (inr (h chs t))

module _ (excluded : Bytes → Bool) (configured : Bool) (answer : ℕ → Bytes → PageAnswer) where
  pages-Returns :
      (fuel i k : ℕ) (token : Bytes) (c : Cache) (items : List Change)
      → i ≤ k
      → k < i + fuel
      → ((t : Bytes) → IsLast (answer k t))
      → Returns (poll_pages excluded configured answer fuel i token c items)
  unfolding poll_pages
  pages-Returns zero i k token c items h l last = absurd (omega arith)
  pages-Returns (suc fuel) i k token c items h l last =
      answered (answer i token) _ _
        (λ chs t.
          poll_pages excluded configured answer fuel (i + 1) t (translate_all excluded c chs).0
            (items ++ (translate_all excluded c chs).1))
        _
        (elim (Bool-cases (i == k)) [
          | inl e ↦ inl (subst (λ j. IsLast (answer j token)) (sym ((==_iff i k).0 e)) (last token))
          | inr e ↦ inr (λ chs t.
              pages-Returns fuel (i + 1) k t _ _ (ground (arith, e, h)) (omega arith) last)
        ])

  -- If the call number k of a poll, counted from 0, has no page after it, whatever token it is
  -- asked with, the poll returns within k + 1 calls.
  pub poll_changes-Returns :
      (k : ℕ) (token : Bytes) (c : Cache)
      → ((t : Bytes) → IsLast (answer k t))
      → Returns (poll_changes excluded configured answer (k + 1) token c)
  unfolding poll_changes
  poll_changes-Returns k token c last =
      pages-Returns (k + 1) 0 k token c [] (omega arith) (omega arith) last
