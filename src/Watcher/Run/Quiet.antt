-- ===== src/Watcher/Run/Quiet.antt =====
-- What a paired rename of a directory leaves behind: nothing pending below its old and its new
-- path, and a window in which events there are dropped.
use home_drive.Base.{if_both}
use home_drive.Base.{
  ℕ, ◌≡◌, refl, sym, ◌≤◌, ◌+◌, Bool, true, false, ◌&&◌, Option, none, some, length, ltb,
  if◌then◌else◌, Bool-cases, inl, inr, ◌⊎◌, ◌∙◌, ap,
}
use mathlib.Core.Path.{subst}
use home_drive.Base.Text.{Bytes, has_prefix, bytes_eq_refl}
use home_drive.Base.{then-branch, else-branch}
use home_drive.Watcher.Debouncer.{
  op_rename, Event, Debouncer, suppress, forget, set, suppress_prefix,
}
use home_drive.Watcher.Debouncer.Latest.{InSync, has, suppress-InSync, suppress_prefix-InSync}
use home_drive.Watcher.Pairer.{
  Pairer, DirRename, Outcome, passed, paired, below, is_suppressed, scan_suppressed, handle_rename,
  handle_create,
}
use home_drive.Watcher.Pairer.Suppressed.{Under}
use home_drive.Watcher.Loop.{
  debounce_path, new_path, dispatch, World, Watcher, WatchEvent, FsEvent, send, capacity,
  on_dir_rename_paired, answer, handle_fs_event,
}
use home_drive.Watcher.Run.Bounded.{WellFormed, walk-WellFormed}
use home_drive.Watcher.Run.Covered.{
  OfPair, OfPair-if, Covered, handle_rename-Covered, handle_create-Covered, prefixes, pair-prefixes,
}

stays_none : (b : Bool) (st : Option Event) → st ≡ none → (if b then none else st) ≡ none
stays_none true st e = refl
stays_none false st e = e

no_event : (st : Option Event) → has st ≡ false → st ≡ none
unfolding has
no_event none e = refl
no_event (some ev) e = absurd (cc e)

gated :
    (t b : Bool) (st : Option Event) → t ≡ has st → b ≡ true → (if t && b then none else st) ≡ none
unfolding has
gated t b none e c = stays_none (t && b) none refl
gated t b (some ev) e c = rw e rw c refl

module _ (p : Bytes) (d : Debouncer) where
  suppress-none : InSync d → (suppress p d).pending p ≡ none
  unfolding suppress forget set has
  suppress-none sync =
      if_both (λ (c : Debouncer). c.pending p ≡ none) (d.timers p) _ _
        (λ e. then-branch _ _ (bytes_eq_refl p)) (λ e. no_event (d.pending p) (sym (sync p).0 ∙ e))

  prefix-none :
      (q : Bytes) → InSync d → has_prefix p q ≡ true → (suppress_prefix q d).pending p ≡ none
  unfolding suppress_prefix
  prefix-none q sync c = gated (d.timers p) (has_prefix p q) (d.pending p) (sync p).0 c

  prefix-stays : (q : Bytes) → d.pending p ≡ none → (suppress_prefix q d).pending p ≡ none
  unfolding suppress_prefix
  prefix-stays q e = stays_none (d.timers p && has_prefix p q) (d.pending p) e

-- The new path of a rename, and all below its two paths.
abbrev pub Moved : Bytes → Bytes → Bytes → Type 0
Moved from to p = (p ≡ to) ⊎ ((has_prefix p (below from) ≡ true) ⊎ (has_prefix p (below to) ≡ true))

quiet :
    (from to p : Bytes) (d : Debouncer)
    → InSync d
    → Moved from to p
    → (suppress_prefix (below to) (suppress_prefix (below from) (suppress to d))).pending p ≡ none
quiet from to p d sync (inl e) = prefix-stays p _ (below to) (
    prefix-stays p _ (below from)
      (subst (λ q. (suppress to d).pending q ≡ none) (sym e) (suppress-none to d sync)))
quiet from to p d sync (inr (inl c)) =
    prefix-stays p _ (below to) (prefix-none p _ (below from) (suppress-InSync d sync to) c)
quiet from to p d sync (inr (inr c)) =
    prefix-none p _ (below to) (suppress_prefix-InSync _ (suppress-InSync d sync to) (below from)) c

send-debouncer : (e : WatchEvent) (w : Watcher) → (send e w).debouncer ≡ w.debouncer
unfolding send
send-debouncer e w = elim (Bool-cases (ltb (length w.events) capacity)) [
  | inl c ↦ ap (λ (v : Watcher). v.debouncer) (then-branch _ _ c)
  | inr c ↦ ap (λ (v : Watcher). v.debouncer) (else-branch _ _ c)
]

-- The event changes neither what is pending in the debouncer nor the channel.
abbrev pub Dropped : Watcher → Watcher → Type 0
Dropped v w = (v.debouncer ≡ w.debouncer) × (v.events ≡ w.events)

unpaired_pair :
    (p s : Pairer) (dr : DirRename) → ¬ (Path (Pairer × Outcome) (p, passed) (s, paired dr))
unpaired_pair p s dr e = cc e

chosen :
    {A : Type 0} (b c : Bool) (r q : Pairer × Outcome) (p s : Pairer) (dr : DirRename)
    (x y z goal : A)
    → (r ≡ (s, paired dr) → x ≡ goal)
    → (q ≡ (s, paired dr) → y ≡ goal)
    → (if b then r else if c then q else (p, passed)) ≡ (s, paired dr)
    → (if b then x else if c then y else z) ≡ goal
chosen true c r q p s dr x y z goal h k e = h e
chosen false true r q p s dr x y z goal h k e = k e
chosen false false r q p s dr x y z goal h k e = absurd (unpaired_pair p s dr e)

module _ (excluded : Bytes → Bool) (window : ℕ) (has_store : Bool) where
  pair-quiet :
      (o : World) (dr : DirRename) (w : Watcher) (p : Bytes)
      → WellFormed w
      → Moved dr.from dr.to p
      → (on_dir_rename_paired excluded window has_store o dr w).debouncer.pending p ≡ none
  unfolding on_dir_rename_paired
  pair-quiet o dr w p h m =
      ap (λ (d : Debouncer). d.pending p) (send-debouncer _ _)
      ∙ quiet dr.from dr.to p _
          (walk-WellFormed excluded window has_store o false (o.tree dr.to) _
            (record { fits = h.fits; in_sync = h.in_sync })).in_sync
          m

  event-Dropped :
      (o : World) (ev : FsEvent) (w : Watcher)
      → (is_suppressed ev.name o.checked_at w.pairer).1 ≡ true
      → Dropped (handle_fs_event excluded window has_store o ev w) w
  unfolding handle_fs_event
  event-Dropped o ev w e =
      if_both (λ v. Dropped v w) (excluded ev.name) _ _ (λ c. (refl, refl))
        (λ c.
          if_both (λ v. Dropped v w) (is_suppressed ev.name o.checked_at w.pairer).1 _ _
            (λ d. (refl, refl)) (λ d. absurd (cc (sym e ∙ d))))

  -- What the pairer makes of an event that is neither excluded nor suppressed.
  abbrev pub pair_of : World → FsEvent → Watcher → Pairer × Outcome
  pair_of o ev w =
      if ev.has_rename
      then handle_rename window ev.name o.now o.paired_at w.pairer
      else if ev.has_create
      then handle_create window ev.name o.pair_is_dir o.now o.paired_at w.pairer
      else (w.pairer, passed)

  dispatch-pair :
      (o : World) (ev : FsEvent) (w : Watcher) (s : Pairer) (dr : DirRename)
      → pair_of o ev w ≡ (s, paired dr)
      → dispatch excluded window has_store o ev w
        ≡ on_dir_rename_paired excluded window has_store o dr (record w { pairer = s })
  unfolding dispatch answer
  dispatch-pair o ev w s dr e =
      chosen ev.has_rename ev.has_create _ _ w.pairer s dr _ _ _ _
        (λ d.
          ap
            (λ r.
              answer excluded window has_store o r
                (debounce_path excluded window has_store o ev.name op_rename o.now) w)
            d)
        (λ d.
          ap
            (λ r.
              answer excluded window has_store o r (new_path excluded window has_store o ev.name) w)
            d)
        e

  pair-Covered :
      (o : World) (ev : FsEvent) (w : Watcher)
      → OfPair (Covered (o.paired_at + window)) (pair_of o ev w)
  pair-Covered o ev w =
      let P = Covered (o.paired_at + window) in
      OfPair-if P ev.has_rename _ _
        (handle_rename-Covered window ev.name o.now o.paired_at w.pairer)
        (OfPair-if P ev.has_create _ _
          (handle_create-Covered window ev.name o.pair_is_dir o.now o.paired_at w.pairer) tt)

  -- An event that pairs up the rename of a directory leaves nothing pending in the debouncer for
  -- the new path and for the paths below the old and the new one, if the watcher was well-formed.
  dispatch-pending :
      (o : World) (ev : FsEvent) (w : Watcher) (s : Pairer) (dr : DirRename) (p : Bytes)
      → WellFormed w
      → pair_of o ev w ≡ (s, paired dr)
      → Moved dr.from dr.to p
      → (dispatch excluded window has_store o ev w).debouncer.pending p ≡ none
  dispatch-pending o ev w s dr p h e m =
      ap (λ (v : Watcher). v.debouncer.pending p) (dispatch-pair o ev w s dr e)
      ∙ pair-quiet o dr _ p (record { fits = h.fits; in_sync = h.in_sync }) m

  -- The event after one that pairs up the rename of a directory is dropped, if it is about the old
  -- or the new path or a path below one of them, and its check comes within the window from the
  -- pair on: what is pending in the debouncer and in the channel stays as it is.
  pub dispatch-Dropped :
      (o o' : World) (ev ev' : FsEvent) (w : Watcher) (s : Pairer) (dr : DirRename)
      → pair_of o ev w ≡ (s, paired dr)
      → Under dr.from dr.to ev'.name
      → o'.checked_at ≤ o.paired_at + window
      → Dropped
          (handle_fs_event excluded window has_store o' ev'
            (dispatch excluded window has_store o ev w))
          (dispatch excluded window has_store o ev w)
  unfolding is_suppressed
  dispatch-Dropped o o' ev ev' w s dr e under h = event-Dropped o' ev' _ (
      ap (λ m. (scan_suppressed ev'.name o'.checked_at m).1)
        (ap prefixes (dispatch-pair o ev w s dr e)
          ∙ pair-prefixes excluded window has_store o dr (record w { pairer = s }))
      ∙ subst (OfPair (Covered (o.paired_at + window))) e (pair-Covered o ev w) ev'.name
          o'.checked_at under h)
