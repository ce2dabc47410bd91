-- ===== src/Watcher/Run/Bounded.antt =====
-- The channel of the watcher stays within its capacity, and its debouncer keeps a timer for each
-- pending event.
use home_drive.Base.{
  ℕ, refl, ◌≤◌, Bool, true, false, not, ◌&&◌, Option, none, some, List, [], ◌∷◌, length,
  length-append, drop, ltb, if◌then◌else◌, arith, Bool-cases, inl, inr,
}
use home_drive.Base.Text.{Bytes}
use home_drive.Base.Time.{Time}
use home_drive.Watcher.Debouncer.{Op, Event}
use home_drive.Watcher.Debouncer.Latest.{
  InSync, has, add-InSync, fire-react, suppress-InSync, suppress_prefix-InSync, stop-InSync,
}
use home_drive.Watcher.Pairer.{Pairer, DirRename, Outcome, passed, consumed, paired}
use home_drive.Watcher.Loop.{
  World, Watcher, WatchEvent, FsEvent, Forest, leaf, branch, Node, dir, file, capacity, send,
  fire_event, debounce_path, suppress_self_induced, walk_node, walk_new_dir, on_dir_rename_paired,
  answer, new_path, dispatch, handle_fs_event,
}
use home_drive.Watcher.Run.{
  Input, fs_event, rename_expired, debounced, received, stop_called, unpaired, fired, step, steps,
  new_watcher,
}

pub record WellFormed (w : Watcher) : Type 0 where
  pub fits : length w.events ≤ capacity
  pub in_sync : InSync w.debouncer

send-WellFormed : (e : WatchEvent) (w : Watcher) → WellFormed w → WellFormed (send e w)
unfolding send
send-WellFormed e w h = elim (Bool-cases (ltb (length w.events) capacity)) [
  | inl c ↦ rw c (record {
    fits = rw (length-append w.events (e ∷ [])) ground (arith, c);
    in_sync = h.in_sync;
  })
  | inr c ↦ rw c h
]

if-WellFormed :
    (b : Bool) {v w : Watcher} → WellFormed v → WellFormed w → WellFormed (if b then v else w)
if-WellFormed true h k = h
if-WellFormed false h k = k

module _ (excluded : Bytes → Bool) (window : ℕ) (has_store : Bool) (o : World) where
  debounce-WellFormed :
      (p : Bytes) (op : Op) (at : Time) (w : Watcher)
      → WellFormed w
      → WellFormed (debounce_path excluded window has_store o p op at w)
  unfolding debounce_path
  debounce-WellFormed p op at w h =
      elim (Bool-cases (suppress_self_induced excluded window has_store o p op)) [
        | inl c ↦ rw c h
        | inr c ↦ rw c (record { fits = h.fits; in_sync = add-InSync _ h.in_sync _ })
      ]

  mutual
    unfolding walk_node walk_new_dir

    walk_node-WellFormed :
        (emit : Bool) (n : Node) (w : Watcher)
        → WellFormed w
        → WellFormed (walk_node excluded window has_store o emit n w)
    walk_node-WellFormed emit (dir p kids) w h = elim (Bool-cases (excluded p)) [
      | inl c ↦ rw c h
      | inr c ↦ rw c (walk-WellFormed emit kids _ (record { fits = h.fits; in_sync = h.in_sync }))
    ]
    walk_node-WellFormed emit (file p regular at) w h =
        elim (Bool-cases (emit && (regular && not (excluded p)))) [
          | inl c ↦ rw c (debounce-WellFormed p _ at w h)
          | inr c ↦ rw c h
        ]

    pub walk-WellFormed :
        (emit : Bool) (ns : Forest) (w : Watcher)
        → WellFormed w
        → WellFormed (walk_new_dir excluded window has_store o emit ns w)
    walk-WellFormed emit leaf w h = h
    walk-WellFormed emit (branch n ns) w h =
        walk-WellFormed emit ns _ (walk_node-WellFormed emit n w h)

  pair-WellFormed :
      (dr : DirRename) (w : Watcher)
      → WellFormed w
      → WellFormed (on_dir_rename_paired excluded window has_store o dr w)
  unfolding on_dir_rename_paired
  pair-WellFormed dr w h =
      let walked =
        walk-WellFormed false (o.tree dr.to) _ (record { fits = h.fits; in_sync = h.in_sync }) in
      send-WellFormed _ _ (record {
        fits = walked.fits;
        in_sync =
            suppress_prefix-InSync _
              (suppress_prefix-InSync _ (suppress-InSync _ walked.in_sync dr.to) _) _;
      })

  answer-WellFormed :
      (r : Pairer × Outcome) (f : Watcher → Watcher) (w : Watcher)
      → ((v : Watcher) → WellFormed v → WellFormed (f v))
      → WellFormed w
      → WellFormed (answer excluded window has_store o r f w)
  unfolding answer
  answer-WellFormed (p, passed) f w k h = k _ (record { fits = h.fits; in_sync = h.in_sync })
  answer-WellFormed (p, consumed) f w k h = record { fits = h.fits; in_sync = h.in_sync }
  answer-WellFormed (p, paired dr) f w k h =
      pair-WellFormed dr _ (record { fits = h.fits; in_sync = h.in_sync })

  new_path-WellFormed :
      (p : Bytes) (w : Watcher)
      → WellFormed w
      → WellFormed (new_path excluded window has_store o p w)
  unfolding new_path
  new_path-WellFormed p w h = debounce-WellFormed p _ o.now _ (
      if-WellFormed o.is_dir
        (walk-WellFormed true (o.tree p) _ (record { fits = h.fits; in_sync = h.in_sync })) h)

  dispatch-WellFormed :
      (ev : FsEvent) (w : Watcher)
      → WellFormed w
      → WellFormed (dispatch excluded window has_store o ev w)
  unfolding dispatch
  dispatch-WellFormed ev w h =
      if-WellFormed ev.has_rename (answer-WellFormed _ _ w (debounce-WellFormed ev.name _ o.now) h)
        (if-WellFormed ev.has_create (answer-WellFormed _ _ w (new_path-WellFormed ev.name) h) (
          if-WellFormed ev.has_write (debounce-WellFormed ev.name _ o.now w h) (
            if-WellFormed ev.has_remove
              (debounce-WellFormed ev.name _ o.now _
                (record { fits = h.fits; in_sync = h.in_sync }))
              h)))

  event-WellFormed :
      (ev : FsEvent) (w : Watcher)
      → WellFormed w
      → WellFormed (handle_fs_event excluded window has_store o ev w)
  unfolding handle_fs_event
  event-WellFormed ev w h = if-WellFormed (excluded ev.name) h (
      if-WellFormed _ (record { fits = h.fits; in_sync = h.in_sync })
        (dispatch-WellFormed ev _ (record { fits = h.fits; in_sync = h.in_sync })))

drop_one : (l : List WatchEvent) (n : ℕ) → length l ≤ n → length (drop 1 l) ≤ n
drop_one [] n h = h
drop_one (e ∷ l) n h = omega arith

unpaired-WellFormed : (e : Option Event) (w : Watcher) → WellFormed w → WellFormed (unpaired e w)
unfolding unpaired
unpaired-WellFormed none w h = h
unpaired-WellFormed (some ev) w h = send-WellFormed _ w h

module _ (excluded : Bytes → Bool) (window : ℕ) (has_store : Bool) where
  fired-WellFormed :
      (o : World) (e : Option Event) (w : Watcher)
      → WellFormed w
      → WellFormed (fired excluded window has_store o e w)
  unfolding fired fire_event
  fired-WellFormed o none w h = h
  fired-WellFormed o (some ev) w h = if-WellFormed _ h (send-WellFormed _ w h)

  step-WellFormed :
      (i : Input) (w : Watcher) → WellFormed w → WellFormed (step excluded window has_store i w)
  unfolding step
  step-WellFormed (fs_event o ev) w h = event-WellFormed excluded window has_store o ev w h
  step-WellFormed (rename_expired p) w h =
      unpaired-WellFormed _ _ (record { fits = h.fits; in_sync = h.in_sync })
  step-WellFormed (debounced o p) w h =
      fired-WellFormed o _ _
        (record { fits = h.fits; in_sync = (fire-react w.debouncer h.in_sync p).0 })
  step-WellFormed received w h = record {
    fits = drop_one w.events capacity h.fits;
    in_sync = h.in_sync;
  }
  step-WellFormed stop_called w h = record {
    fits = h.fits;
    in_sync = stop-InSync w.debouncer h.in_sync;
  }

  steps-from :
      (is : List Input) (w : Watcher)
      → WellFormed w
      → WellFormed (steps excluded window has_store is w)
  unfolding steps
  steps-from [] w h = h
  steps-from (i ∷ is) w h = steps-from is _ (step-WellFormed i w h)

  -- After any inputs from the start the channel holds at most 1,024 events, and a timer is armed
  -- exactly for the paths with a pending event, which is an event of the path.
  pub steps-WellFormed :
      (is : List Input) → WellFormed (steps excluded window has_store is new_watcher)
  unfolding has
  steps-WellFormed is =
      steps-from is new_watcher (record { fits = omega arith; in_sync = λ p. (refl, tt) })
