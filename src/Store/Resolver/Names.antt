-- ===== src/Store/Resolver/Names.antt =====
-- The winner and the names of internal/store/conflict.go.
use home_drive.Base.{
  ◌≡◌, ◌≢◌, refl, sym, ℕ, ◌<◌, ◌≤◌, Bool, true, false, Option, none, some, ltb, if◌then◌else◌,
}
use mathlib.Core.Path.{subst}
use home_drive.Base.Text.{Bytes}
use home_drive.Base.Time.{Time}
use home_drive.OldSuffix.{Matcher, format, next_old_n, max_probe}
use home_drive.OldSuffix.Numbers.{next_old_n-free}
use home_drive.Syncer.Types.{Origin, local, remote}
use home_drive.Syncer.Conflict
use home_drive.Store.Bucket.{Bucket, BucketLaws, Json, Lossless}
use home_drive.Store.Rename.Siblings.{no_bool}
use home_drive.Store.Journal.{put, get, exists, entry}
use home_drive.Store.Journal.Reads.{get_some, put-inv}
use home_drive.Store.Resolver.{
  ConflictPolicy, newer_wins, local_wins, remote_wins, ConflictInput, ConflictResult, Resolution,
  Resolved, unknown_policy, put_failed, resolved, newer_side, store_winner, other_side, loser_entry,
  next_old_path, record_loser, resolve,
}

-- The policy of the store with the same name.
abbrev pub policy_of : Conflict.ConflictPolicy → ConflictPolicy
policy_of Conflict.newer_wins = newer_wins
policy_of Conflict.local_wins = local_wins
policy_of Conflict.remote_wins = remote_wins

abbrev pub winner_of : Option (Origin × Bool) → Option Origin
winner_of none = none
winner_of (some (w, warning)) = some w

newer :
    (a b : Bool)
    → winner_of (some (if a then (local, false) else if b then (remote, false) else (local, true)))
      ≡ some (if a then local else if b then remote else local)
newer true b = refl
newer false true = refl
newer false false = refl

-- For each policy that the puller has, the resolver of the store picks the same winner.
store_winner-determine_winner :
    (p : Conflict.ConflictPolicy) (l r : Time)
    → winner_of (store_winner (policy_of p) l r) ≡ some (Conflict.determine_winner l r p)
unfolding store_winner newer_side Conflict.determine_winner
store_winner-determine_winner Conflict.newer_wins l r = newer (ltb r l) (ltb l r)
store_winner-determine_winner Conflict.local_wins l r = refl
store_winner-determine_winner Conflict.remote_wins l r = refl

module _ {B V : Type 0} (bk : Bucket B V) (js : Json V) (m : Matcher) where
  -- The entry of the loser that a resolution put in the journal.
  abbrev Recorded : B → Time → ConflictInput → ConflictResult → B → Type 0
  Recorded b now i r b' =
      (put bk js b (loser_entry r.loser_side i r.old_path now) ≡ some b')
      × (r.loser_side ≡ other_side r.winner)

  abbrev OfResolved : (ConflictResult → B → Type 0) → Resolved B → Type 0
  OfResolved P unknown_policy = Unit
  OfResolved P put_failed = Unit
  OfResolved P (resolved r label b') = P r b'

  if_put :
      (P : ConflictResult → B → Type 0) (o : Option B) (f : B → Resolved B)
      → ((b' : B) → o ≡ some b' → OfResolved P (f b'))
      → OfResolved P (elim o [ none ↦ put_failed | some b' ↦ f b' ])
  if_put P none f k = tt
  if_put P (some b') f k = k b' refl

  if_known :
      (P : ConflictResult → B → Type 0) (o : Option (Origin × Bool))
      (f : Origin × Bool → Resolved B)
      → ((x : Origin × Bool) → OfResolved P (f x))
      → OfResolved P (elim o [ none ↦ unknown_policy | some x ↦ f x ])
  if_known P none f k = tt
  if_known P (some x) f k = k x

  resolve-Recorded :
      (policy : ConflictPolicy) (b : B) (i : ConflictInput) (now : Time)
      → OfResolved (Recorded b now i) (resolve bk js m policy b i now)
  unfolding resolve record_loser
  resolve-Recorded policy b i now =
      let P = Recorded b now i in
      if_known P (store_winner policy i.local_mtime i.remote_mtime) _ (λ x.
        if_put P (put bk js b (loser_entry (other_side x.0) i (next_old_path bk js m b i.path) now))
          _ (λ b' e. (e, refl)))

  entry_path :
      (o : Origin) (i : ConflictInput) (p : Bytes) (now : Time) → (loser_entry o i p now).path ≡ p
  unfolding loser_entry
  entry_path local i p now = refl
  entry_path remote i p now = refl

  -- If JSON reads the entry of the loser back as it was written: a resolution that succeeds leaves
  -- the entry of the losing side, the one that does not win, under the name that it returns; and the
  -- name for the next conflict, of whatever path, is another one, if one of the numbers tried there
  -- is free.
  pub resolve-next_old_path :
      BucketLaws bk
      → (policy : ConflictPolicy) (b b' : B) (i : ConflictInput) (now : Time) (r : ConflictResult)
        (label : Resolution) (q : Bytes) (f : ℕ)
      → Lossless js (loser_entry r.loser_side i r.old_path now)
      → resolve bk js m policy b i now ≡ resolved r label b'
      → 0 < f
      → f ≤ max_probe
      → exists bk js b' (format m (next_old_n m q (exists bk js b')).0 f) ≡ false
      → ((get bk js b' r.old_path ≡ entry (loser_entry r.loser_side i r.old_path now))
          × (r.loser_side ≡ other_side r.winner))
        × (next_old_path bk js m b' q ≢ r.old_path)
  unfolding next_old_path
  resolve-next_old_path laws policy b b' i now r label q f back h pos bound free =
      let (done, side) =
        subst (OfResolved (Recorded b now i)) h (resolve-Recorded policy b i now) in
      let e = loser_entry r.loser_side i r.old_path now in
      let named = entry_path r.loser_side i r.old_path now in
      let (v, text, written) = put-inv bk js b b' e done in
      let held : bk.get b' r.old_path ≡ some v =
        subst (λ p. bk.get b' p ≡ some v) named (laws.put_same b b' e.path v written) in
      let (got, known) = get_some bk js b' r.old_path e v (back v text) held in
      (
        (got, side),
        λ same.
            no_bool (next_old_n-free m q (exists bk js b') f pos bound free).0
              (subst (λ p. exists bk js b' p ≡ true) (sym same) known),
      )
