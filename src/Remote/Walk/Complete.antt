-- ===== src/Remote/Walk/Complete.antt =====
-- A full walk has the objects outside excluded paths, and only those.
use home_drive.Base.{if_both}
use home_drive.Base.{
  ◌≡◌, refl, sym, ap, ◌∙◌, Bool, false, Option, none, some, List, [], ◌∷◌, ◌++◌, ◌⊎◌, inl, inr, ◌↔◌,
}
use mathlib.Core.Path.{subst}
use home_drive.Base.Text.{Bytes}
use home_drive.Syncer.Types.{RemoteObject, Change, Error}
use home_drive.Store.Bucket.{Among}
use home_drive.Remote.Changes.{Cache}
use home_drive.Remote.Walk.{
  Entry, object, directory, Listing, unlisted, end, more, Walked, change_of, visit, list_recursive,
}

Among-left : {A : Type 0} (a : A) (xs ys : List A) → Among a xs → Among a (xs ++ ys)
Among-left a [] ys h = absurd h
Among-left a (x ∷ xs) ys (inl e) = inl e
Among-left a (x ∷ xs) ys (inr i) = inr (Among-left a xs ys i)

Among-last : {A : Type 0} (a b : A) (xs : List A) → a ≡ b → Among a (xs ++ b ∷ [])
Among-last a b [] e = inl e
Among-last a b (x ∷ xs) e = inr (Among-last a b xs e)

Among-split : {A : Type 0} (a b : A) (xs : List A) → Among a (xs ++ b ∷ []) → Among a xs ⊎ (a ≡ b)
Among-split a b [] (inl e) = inr e
Among-split a b [] (inr i) = absurd i
Among-split a b (x ∷ xs) (inl e) = inl (inl e)
Among-split a b (x ∷ xs) (inr i) = elim (Among-split a b xs i) [
  | inl j ↦ inl (inr j)
  | inr e ↦ inr e
]

if_none :
    {A : Type 0} (P : A → Type 0) (o : Option Error) (x y : A)
    → ((e : Error) → o ≡ some e → P x)
    → (o ≡ none → P y)
    → P (elim o [ some e ↦ x | none ↦ y ])
if_none P none x y h k = k refl
if_none P (some e) x y h k = h e refl

module _ (excluded : Bytes → Bool) where
  -- The object is at or below the entry, and neither it nor a directory on the way is excluded.
  mutual
    pub Holds : Entry → RemoteObject → Type 0
    Holds (object p) o = (excluded p.path ≡ false) × (o ≡ p)
    Holds (directory id path below) o = (excluded path ≡ false) × Lists below o

    pub Lists : Listing → RemoteObject → Type 0
    Lists (unlisted e) o = ⊥
    Lists end o = ⊥
    Lists (more e rest) o = Holds e o ⊎ Lists rest o

  mutual
    unfolding visit list_recursive

    visit-keeps :
        (e : Entry) (w : Walked) (a : Change) → Among a w.items → Among a (visit excluded e w).items
    visit-keeps (object o) w a i =
        if_both (λ (v : Walked). Among a v.items) (excluded o.path) _ _ (λ c. i)
          (λ c. Among-left a w.items _ i)
    visit-keeps (directory id path below) w a i =
        if_both (λ (v : Walked). Among a v.items) (excluded path) _ _ (λ c. i)
          (λ c. walk-keeps below _ a i)

    walk-keeps :
        (l : Listing) (w : Walked) (a : Change)
        → Among a w.items
        → Among a (list_recursive excluded l w).items
    walk-keeps (unlisted e) w a i = i
    walk-keeps end w a i = i
    walk-keeps (more e rest) w a i =
        if_none (λ (v : Walked). Among a v.items) (visit excluded e w).error _ _
          (λ x c. visit-keeps e w a i) (λ c. walk-keeps rest _ a (visit-keeps e w a i))

  mutual
    unfolding visit list_recursive Holds Lists

    visit-has :
        (e : Entry) (w : Walked) (o : RemoteObject)
        → Holds e o
        → (visit excluded e w).error ≡ none
        → Among (change_of o) (visit excluded e w).items
    visit-has (object p) w o (c, same) =
        if_both (λ (v : Walked). v.error ≡ none → Among (change_of o) v.items) (excluded p.path) _ _
          (λ d. absurd (cc (sym c ∙ d)))
          (λ d done. Among-last (change_of o) (change_of p) w.items (ap change_of same))
    visit-has (directory id path below) w o (c, inside) =
        if_both (λ (v : Walked). v.error ≡ none → Among (change_of o) v.items) (excluded path) _ _
          (λ d. absurd (cc (sym c ∙ d))) (λ d. walk-has below _ o inside)

    walk-has :
        (l : Listing) (w : Walked) (o : RemoteObject)
        → Lists l o
        → (list_recursive excluded l w).error ≡ none
        → Among (change_of o) (list_recursive excluded l w).items
    walk-has (unlisted e) w o h = absurd h
    walk-has end w o h = absurd h
    walk-has (more e rest) w o (inl h) =
        if_none (λ (v : Walked). v.error ≡ none → Among (change_of o) v.items)
          (visit excluded e w).error _ _ (λ x c done. absurd (cc (sym c ∙ done)))
          (λ c done. walk-keeps rest _ (change_of o) (visit-has e w o h c))
    walk-has (more e rest) w o (inr h) =
        if_none (λ (v : Walked). v.error ≡ none → Among (change_of o) v.items)
          (visit excluded e w).error _ _ (λ x c done. absurd (cc (sym c ∙ done)))
          (λ c. walk-has rest _ o h)

  -- The change of an object that the entry, or the listing, has.
  abbrev From : (RemoteObject → Type 0) → Change → Type 0
  From P a = (o : RemoteObject) × ((a ≡ change_of o) × P o)

  first_of :
      (e : Entry) (rest : Listing) (w : Walked) (a : Change)
      → Among a w.items ⊎ From (Holds e) a
      → Among a w.items ⊎ From (Lists (more e rest)) a
  unfolding Lists
  first_of e rest w a (inl i) = inl i
  first_of e rest w a (inr (o, (s, h))) = inr (o, (s, inl h))

  mutual
    unfolding visit list_recursive Holds Lists

    visit-only :
        (e : Entry) (w : Walked) (a : Change)
        → Among a (visit excluded e w).items
        → Among a w.items ⊎ From (Holds e) a
    visit-only (object p) w a =
        if_both (λ (v : Walked). Among a v.items → Among a w.items ⊎ From (Holds (object p)) a)
          (excluded p.path) _ _ (λ c i. inl i)
          (λ c i. elim (Among-split a (change_of p) w.items i) [
            | inl j ↦ inl j
            | inr e ↦ inr (p, (e, (c, refl)))
          ])
    visit-only (directory id path below) w a =
        if_both
          (λ (v : Walked).
            Among a v.items → Among a w.items ⊎ From (Holds (directory id path below)) a)
          (excluded path) _ _ (λ c i. inl i)
          (λ c i. elim (walk-only below _ a i) [
            | inl j ↦ inl j
            | inr (o, (e, h)) ↦ inr (o, (e, (c, h)))
          ])

    walk-only :
        (l : Listing) (w : Walked) (a : Change)
        → Among a (list_recursive excluded l w).items
        → Among a w.items ⊎ From (Lists l) a
    walk-only (unlisted e) w a = λ i. inl i
    walk-only end w a = λ i. inl i
    walk-only (more e rest) w a =
        if_none (λ (v : Walked). Among a v.items → Among a w.items ⊎ From (Lists (more e rest)) a)
          (visit excluded e w).error _ _ (λ x c i. first_of e rest w a (visit-only e w a i))
          (λ c i. elim (walk-only rest _ a i) [
            | inl j ↦ first_of e rest w a (visit-only e w a j)
            | inr (o, (s, h)) ↦ inr (o, (s, inr h))
          ])

  -- A full walk that ends without an error has the change of an object exactly if the remote has
  -- the object, and neither its path nor that of a directory above it is excluded.
  pub list_recursive-Lists :
      (root : Listing) (c : Cache) (o : RemoteObject)
      → (list_recursive excluded root (record { cache = c; items = []; error = none })).error ≡ none
      → Among
          (change_of o)
          (list_recursive excluded root (record { cache = c; items = []; error = none })).items
        ↔ Lists root o
  list_recursive-Lists root c o done = (
    (λ i. elim (walk-only root _ (change_of o) i) [
      | inl j ↦ absurd j
      | inr (p, (e, h)) ↦ subst (Lists root) (cc (ap (λ (ch : Change). ch.object) (sym e))) h
    ]),
    (λ h. walk-has root _ o h done),
  )
