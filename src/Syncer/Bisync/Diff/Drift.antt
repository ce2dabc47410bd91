-- ===== src/Syncer/Bisync/Diff/Drift.antt =====
-- What a difference has of the files on the local side, against a journal that answers each path
-- in one way.
use home_drive.Base.{
  if_both, ℕ, Bool, not, ◌==◌, ==_iff, arith, ◌≡◌, refl, sym, ap, ◌∙◌, true, false, Option, none,
  some, List, [], ◌∷◌, ◌⊎◌, inl, inr, ◌↔◌, Option-cases, if◌then◌else◌,
}
use mathlib.Core.Path.{subst}
use home_drive.Base.Text.{Bytes, bytes_eq, bytes_eq_iff}
use home_drive.Base.Maps.{Map, lookup}
use home_drive.Syncer.Types.{RemoteObject, LocalFileInfo, JournalEntry}
use home_drive.Syncer.Go.{
  Call, Resp, Go, Proc, ret, panic, call, bind, Result, ok, fail, run, store_get, ◌>>=◌, after,
  perform, pure,
}
use home_drive.Store.Bucket.{Among}
use home_drive.Syncer.Bisync.Defs.{FileDiff, local_only, remote_only, conflicting}
use home_drive.Syncer.Bisync.Diff.Cases.{neither}
use home_drive.Syncer.Bisync.Diff.{diverges, diff_local_against_remote}

abbrev Journal : Type 0
Journal = Bytes → Result (Option JournalEntry)

-- The two sides are the ones of the last sync; without an entry, their times are the same.
abbrev pub Unchanged : Result (Option JournalEntry) → LocalFileInfo → RemoteObject → Type 0
Unchanged (ok (some e)) l r =
    (l.mod_time ≡ e.local_mtime) × ((r.md5 ≡ e.remote_md5) × (r.mod_time ≡ e.remote_mtime))
Unchanged (ok none) l r = l.mod_time ≡ r.mod_time
Unchanged (fail x) l r = l.mod_time ≡ r.mod_time

-- The difference that a file at a path makes: it is alone, or one of the sides has changed.
abbrev pub Differs : Journal → Map RemoteObject → Bytes × LocalFileInfo → FileDiff → Type 0
Differs j rs (p, l) (local_only l') = (l' ≡ l) × (lookup p rs ≡ none)
Differs j rs (p, l) (conflicting l' r) =
    (l' ≡ l) × ((lookup p rs ≡ some r) × ¬ (Unchanged (j p) l r))
Differs j rs (p, l) (remote_only r) = ⊥

-- One of the files makes the difference.
abbrev pub Drifts : Journal → Map LocalFileInfo → Map RemoteObject → FileDiff → Type 0
Drifts j [] rs d = ⊥
Drifts j (x ∷ ls) rs d = Differs j rs x d ⊎ Drifts j ls rs d

unequal : (a b : ℕ) → (not (a == b) ≡ false) ↔ (a ≡ b)
unequal a b = ((λ e. (==_iff a b).0 (ground (arith, e))), (λ e. rw ((==_iff a b).1 e) refl))

diverges-Unchanged :
    (x : Result (Option JournalEntry)) (l : LocalFileInfo) (r : RemoteObject)
    → (diverges x l r ≡ false) ↔ Unchanged x l r
unfolding diverges
diverges-Unchanged (fail e) l r = unequal l.mod_time r.mod_time
diverges-Unchanged (ok none) l r = unequal l.mod_time r.mod_time
diverges-Unchanged (ok (some e)) l r =
    let (to, from) =
      neither (l.mod_time == e.local_mtime) (bytes_eq r.md5 e.remote_md5)
        (r.mod_time == e.remote_mtime) in
    let (t1, f1) = ==_iff l.mod_time e.local_mtime in
    let (t2, f2) = bytes_eq_iff r.md5 e.remote_md5 in
    let (t3, f3) = ==_iff r.mod_time e.remote_mtime in
    (
      (λ h. let (a, (b, c)) = to h in (t1 a, (t2 b, t3 c))),
      (λ (a, (b, c)). from (f1 a, (f2 b, f3 c))),
    )

not_both : (b : Bool) → b ≡ true → b ≡ false → ⊥
not_both b h k = cc (sym h ∙ k)

diverges-changed :
    (x : Result (Option JournalEntry)) (l : LocalFileInfo) (r : RemoteObject)
    → diverges x l r ≡ true
    → ¬ (Unchanged x l r)
diverges-changed x l r h u = not_both (diverges x l r) h ((diverges-Unchanged x l r).1 u)

run-bind :
    {W A B : Type 0} (env : W → (c : Call) → Resp c × W) (p : Proc A) (f : A → Proc B) (w w' : W)
    (a : A)
    → run env w p ≡ some (a, w')
    → run env w (bind p f) ≡ run env w' (f a)
unfolding run bind
run-bind env (ret x) f w w' a h =
    let same : x ≡ a = cc h in
    let next : w ≡ w' = cc h in ap (λ y. run env w (f y)) same ∙ ap (λ v. run env v (f a)) next
run-bind env panic f w w' a h = absurd (cc h)
run-bind env (call c k) f w w' a h = run-bind env (k (env w c).0) f (env w c).1 w' a h

-- With the differences of the other files, by what the remote side has.
abbrev listed :
    Result (Option JournalEntry)
    → LocalFileInfo
    → List FileDiff
    → Option RemoteObject
    → List FileDiff
listed x l rest none = local_only l ∷ rest
listed x l rest (some r) = if diverges x l r then conflicting l r ∷ rest else rest

-- The differences of the first file and of the others.
unfoldable drift : Journal → Map LocalFileInfo → Map RemoteObject → List FileDiff
drift j [] rs = []
drift j ((p, l) ∷ ls) rs = listed (j p) l (drift j ls rs) (lookup p rs)

module _ {W S : Type 0} (env : W → (c : Call) → Resp c × W) (j : Journal)
    (rs : Map RemoteObject) where
  -- The program and its result for one file, by what the other side has.
  first :
      (p : Bytes) (l : LocalFileInfo) (ls : Map LocalFileInfo) (o : Option RemoteObject) (w : W)
      (s : S)
      → ((v : W) → (env v (store_get p)).0 ≡ j p)
      → ((v : W)
          → (w' : W) × (run env v (diff_local_against_remote ls rs s)
              ≡ some ((ok (drift j ls rs), s), w')))
      → (w' : W) × (run env w (
            (elim o as (λ _. Go S (List FileDiff)) [
              | none ↦ diff_local_against_remote ls rs >>= λ more. pure (local_only l ∷ more)
              | some r ↦ perform (store_get p) >>= λ entry.
                  diff_local_against_remote ls rs >>= λ more.
                  pure (if diverges entry l r then conflicting l r ∷ more else more)
            ])
              s)
          ≡ some ((ok (listed (j p) l (drift j ls rs) o), s), w'))
  unfolding run ◌>>=◌ bind after
  first p l ls none w s h ih =
      let (w', e) = ih w in (w', run-bind env (diff_local_against_remote ls rs s) _ w w' _ e)
  first p l ls (some r) w s h ih =
      let (w', e) = ih (env w (store_get p)).1 in
      (
        w',
        run-bind env (diff_local_against_remote ls rs s) _ (env w (store_get p)).1 w' _ e
            ∙ ap (λ x. some ((ok (listed x l (drift j ls rs) (some r)), s), w')) (h w),
      )

  drift-run :
      (ls : Map LocalFileInfo) (w : W) (s : S)
      → ((v : W) (p : Bytes) → (env v (store_get p)).0 ≡ j p)
      → (w' : W) × (run env w (diff_local_against_remote ls rs s)
          ≡ some ((ok (drift j ls rs), s), w'))
  unfolding diff_local_against_remote drift run
  drift-run [] w s h = (w, refl)
  drift-run ((p, l) ∷ ls) w s h =
      first p l ls (lookup p rs) w s (λ v. h v p) (λ v. drift-run ls v s h)

module _ (j : Journal) (rs : Map RemoteObject) (p : Bytes) (l : LocalFileInfo) where
  -- The difference of one file, by what the other side has and the journal says.
  alone : lookup p rs ≡ none → (d : FileDiff) → (d ≡ local_only l) ↔ Differs j rs (p, l) d
  alone e (local_only k) = ((λ s. (only s, e)), λ (s, _). ap local_only s)
    where
      only : local_only k ≡ local_only l → k ≡ l
      only s = cc s
  alone e (remote_only r) = ((λ s. absurd (cc s)), λ h. absurd h)
  alone e (conflicting k r) = ((λ s. absurd (cc s)), λ (s, (f, _)). absurd (cc (sym e ∙ f)))

  apart :
      (r : RemoteObject)
      → lookup p rs ≡ some r
      → diverges (j p) l r ≡ true
      → (d : FileDiff) → (d ≡ conflicting l r) ↔ Differs j rs (p, l) d
  apart r e c (local_only k) = ((λ s. absurd (cc s)), λ (s, f). absurd (cc (sym e ∙ f)))
  apart r e c (remote_only q) = ((λ s. absurd (cc s)), λ h. absurd h)
  apart r e c (conflicting k q) = (
    (λ s. (
      left s,
      (
        e ∙ ap some (sym (right s)),
        subst (λ x. ¬ (Unchanged (j p) l x)) (sym (right s)) (diverges-changed (j p) l r c),
      ),
    )),
    λ (s, (f, _)). rejoin s (cc (sym f ∙ e)),
  )
    where
      left : conflicting k q ≡ conflicting l r → k ≡ l
      left s = cc s

      right : conflicting k q ≡ conflicting l r → q ≡ r
      right s = cc s

      rejoin : k ≡ l → q ≡ r → conflicting k q ≡ conflicting l r
      rejoin s t = ap (λ x. conflicting x q) s ∙ ap (λ x. conflicting l x) t

  agreed :
      (r : RemoteObject)
      → lookup p rs ≡ some r
      → diverges (j p) l r ≡ false
      → (d : FileDiff) → ¬ (Differs j rs (p, l) d)
  agreed r e c (local_only k) (s, f) = cc (sym e ∙ f)
  agreed r e c (remote_only q) h = absurd h
  agreed r e c (conflicting k q) (s, (f, t)) =
      let same : q ≡ r = cc (sym f ∙ e) in
      subst (λ x. ¬ (Unchanged (j p) l x)) same t ((diverges-Unchanged (j p) l r).0 c)

joined :
    {A : Type 0} {P Q : Type 0} (d x : A) (xs : List A)
    → (d ≡ x) ↔ P
    → Among d xs ↔ Q
    → Among d (x ∷ xs) ↔ (P ⊎ Q)
joined d x xs (to, from) (go, back) = (
  (λ i. elim i [ inl e ↦ inl (to e) | inr k ↦ inr (go k) ]),
  λ i. elim i [ inl e ↦ inl (from e) | inr k ↦ inr (back k) ],
)

skipped : {A P Q : Type 0} → A ↔ Q → ¬ P → A ↔ (P ⊎ Q)
skipped (go, back) never =
    ((λ i. inr (go i)), λ i. elim i [ inl e ↦ absurd (never e) | inr k ↦ back k ])

drift-Drifts :
    (j : Journal) (rs : Map RemoteObject) (ls : Map LocalFileInfo) (d : FileDiff)
    → Among d (drift j ls rs) ↔ Drifts j ls rs d
unfolding drift
drift-Drifts j rs [] d = ((λ i. i), λ i. i)
drift-Drifts j rs ((p, l) ∷ ls) d =
    let rest = drift j ls rs in
    let others = drift-Drifts j rs ls d in
    let Goal = (λ (xs : List FileDiff). Among d xs ↔ (Differs j rs (p, l) d ⊎ Drifts j ls rs d)) in
    elim (Option-cases (lookup p rs)) [
      | inl e ↦
          subst Goal (sym (ap (listed (j p) l rest) e))
            (joined d (local_only l) rest (alone j rs p l e d) others)
      | inr (r, e) ↦ subst Goal (sym (ap (listed (j p) l rest) e)) (
          if_both Goal (diverges (j p) l r) _ _
            (λ c. joined d (conflicting l r) rest (apart j rs p l r e c d) others)
            (λ c. skipped others (agreed j rs p l r e c d)))
    ]

-- Against a journal that answers each path in one way, the comparison of the local side returns a
-- list that has exactly the differences of the local files: a file as alone if the remote side has
-- none at its path, and as a conflict if it has one, unless the local time, the remote time and the
-- checksum are those of the journal entry, or, without an entry, the two times are the same.
pub diff_local_against_remote-Drifts :
    {W S : Type 0} (env : W → (c : Call) → Resp c × W) (j : Journal) (ls : Map LocalFileInfo)
    (rs : Map RemoteObject) (w : W) (s : S)
    → ((v : W) (p : Bytes) → (env v (store_get p)).0 ≡ j p)
    → (ds : List FileDiff) × (w' : W) × (run env w (diff_local_against_remote ls rs s)
        ≡ some ((ok ds, s), w'))
      × ((d : FileDiff) → Among d ds ↔ Drifts j ls rs d)
diff_local_against_remote-Drifts env j ls rs w s h =
    let (w', e) = drift-run env j rs ls w s h in (drift j ls rs, w', e, drift-Drifts j rs ls)
