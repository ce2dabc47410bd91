-- ===== src/Base/Maps.antt =====
-- Go maps and sets with strings for keys, as lists in the order in which they are walked.
use mathlib.Core.Path.{◌≡◌, refl, sym, ap, ◌∙◌, subst}
use mathlib.Core.Logic.{inl, inr}
use mathlib.Core.Bool.{Bool, true, false}
use mathlib.Core.Option.{Option, none, some}
use mathlib.Core.List.{List, [], ◌∷◌}
use home_drive.Base.Tests.{Bool-cases, then-branch, else-branch, if◌then◌else◌}
use home_drive.Base.Text.{Bytes, bytes_eq, bytes_eq_refl, bytes_eq_iff}

abbrev pub Map : Type 0 → Type 0
Map A = List (Bytes × A)

unfoldable pub lookup : {A : Type 0} → Bytes → Map A → Option A
lookup k [] = none
lookup k ((q, a) ∷ rest) = if bytes_eq k q then some a else lookup k rest

unfoldable pub store : {A : Type 0} → Bytes → A → Map A → Map A
store k a [] = (k, a) ∷ []
store k a ((q, b) ∷ rest) =
    let more = store k a rest in if bytes_eq k q then (q, a) ∷ rest else (q, b) ∷ more

unfoldable pub erase : {A : Type 0} → Bytes → Map A → Map A
erase k [] = []
erase k ((q, a) ∷ rest) = let more = erase k rest in if bytes_eq k q then more else (q, a) ∷ more

unfoldable pub has_path : List Bytes → Bytes → Bool
has_path [] p = false
has_path (q ∷ qs) p = if bytes_eq p q then true else has_path qs p

unfoldable pub mark : Bytes → List Bytes → List Bytes
mark p ps = if has_path ps p then ps else p ∷ ps

unfoldable pub remove_path : Bytes → List Bytes → List Bytes
remove_path p [] = []
remove_path p (q ∷ qs) = let more = remove_path p qs in if bytes_eq p q then more else q ∷ more

pub lookup-store : {A : Type 0} (k : Bytes) (a : A) (m : Map A) → lookup k (store k a m) ≡ some a
unfolding lookup store
lookup-store k a [] = then-branch _ _ (bytes_eq_refl k)
lookup-store k a ((q, b) ∷ m) = elim (Bool-cases (bytes_eq k q)) [
  | inl e ↦ ap (lookup k) (then-branch _ _ e) ∙ then-branch _ _ e
  | inr e ↦ ap (lookup k) (else-branch _ _ e) ∙ (else-branch _ _ e ∙ lookup-store k a m)
]

pub lookup-store-other :
    {A : Type 0} (k q : Bytes) (a : A) (m : Map A)
    → bytes_eq k q ≡ false
    → lookup k (store q a m) ≡ lookup k m
unfolding lookup store
lookup-store-other k q a [] e = else-branch _ _ e
lookup-store-other k q a ((r, b) ∷ m) e = elim (Bool-cases (bytes_eq q r)) [
  | inl c ↦
      let f : bytes_eq k r ≡ false = subst (λ t. bytes_eq k t ≡ false) ((bytes_eq_iff q r).0 c) e in
      ap (lookup k) (then-branch _ _ c) ∙ (else-branch _ _ f ∙ sym (else-branch _ _ f))
  | inr c ↦
      ap (lookup k) (else-branch _ _ c)
      ∙ ap (λ t. if bytes_eq k r then some b else t) (lookup-store-other k q a m e)
]

pub lookup-erase : {A : Type 0} (k : Bytes) (m : Map A) → lookup k (erase k m) ≡ none
unfolding lookup erase
lookup-erase k [] = refl
lookup-erase k ((q, b) ∷ m) = elim (Bool-cases (bytes_eq k q)) [
  | inl e ↦ ap (lookup k) (then-branch _ _ e) ∙ lookup-erase k m
  | inr e ↦ ap (lookup k) (else-branch _ _ e) ∙ (else-branch _ _ e ∙ lookup-erase k m)
]

pub lookup-erase-other :
    {A : Type 0} (k q : Bytes) (m : Map A)
    → bytes_eq k q ≡ false
    → lookup k (erase q m) ≡ lookup k m
unfolding lookup erase
lookup-erase-other k q [] e = refl
lookup-erase-other k q ((r, b) ∷ m) e = elim (Bool-cases (bytes_eq q r)) [
  | inl c ↦
      let f : bytes_eq k r ≡ false = subst (λ t. bytes_eq k t ≡ false) ((bytes_eq_iff q r).0 c) e in
      ap (lookup k) (then-branch _ _ c) ∙ (lookup-erase-other k q m e ∙ sym (else-branch _ _ f))
  | inr c ↦
      ap (lookup k) (else-branch _ _ c)
      ∙ ap (λ t. if bytes_eq k r then some b else t) (lookup-erase-other k q m e)
]

-- The laws without a side condition.
pub lookup-store_if :
    {A : Type 0} (k q : Bytes) (a : A) (m : Map A)
    → lookup k (store q a m) ≡ (if bytes_eq k q then some a else lookup k m)
lookup-store_if k q a m = elim (Bool-cases (bytes_eq k q)) [
  | inl e ↦
      ap (λ t. lookup t (store q a m)) ((bytes_eq_iff k q).0 e)
      ∙ (lookup-store q a m ∙ sym (then-branch _ _ e))
  | inr e ↦ lookup-store-other k q a m e ∙ sym (else-branch _ _ e)
]

pub lookup-erase_if :
    {A : Type 0} (k q : Bytes) (m : Map A)
    → lookup k (erase q m) ≡ (if bytes_eq k q then none else lookup k m)
lookup-erase_if k q m = elim (Bool-cases (bytes_eq k q)) [
  | inl e ↦
      ap (λ t. lookup t (erase q m)) ((bytes_eq_iff k q).0 e)
      ∙ (lookup-erase q m ∙ sym (then-branch _ _ e))
  | inr e ↦ lookup-erase-other k q m e ∙ sym (else-branch _ _ e)
]
