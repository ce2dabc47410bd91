-- ===== src/Watcher/Run/Covered.antt =====
-- The pairer keeps the two paths of a pair suppressed while the watcher moves its watches.
use home_drive.Base.{
  ℕ, ◌≡◌, refl, ◌≤◌, ◌+◌, ◌-◌, Bool, true, false, not, ◌&&◌, Option, none, some, List, [], ◌∷◌,
  length, ltb, if◌then◌else◌, Bool-cases, inl, inr, ◌∙◌, ap,
}
use home_drive.Base.Text.{Bytes}
use home_drive.Base.Time.{Time}
use home_drive.Base.Maps.{Map}
use home_drive.Base.{then-branch, else-branch}
use home_drive.Watcher.Debouncer.{Op}
use home_drive.Watcher.Pairer.{
  Pairer, DirRename, Outcome, passed, consumed, paired, is_suppressed, handle_rename, handle_create,
  oldest, fresh, is_tracked_dir, untrack_dir, track_dir,
}
use home_drive.Watcher.Pairer.Suppressed.{Under, pair_suppressed}
use home_drive.Watcher.Loop.{
  untrack_all, remove_subtree_watches, debounce_path, walk_node, Node, Forest, dir, file, leaf,
  branch, suppress_self_induced, World, Watcher, WatchEvent, send, capacity, add_watch,
  on_dir_rename_paired, walk_new_dir,
}

-- What holds of the pair of an outcome, if it has one.
abbrev pub OfPair : (Pairer → DirRename → Type 0) → Pairer × Outcome → Type 0
OfPair P (s, passed) = Unit
OfPair P (s, consumed) = Unit
OfPair P (s, paired dr) = P s dr

module _ (P : Pairer → DirRename → Type 0) where
  pub OfPair-if :
      (b : Bool) (r q : Pairer × Outcome) → OfPair P r → OfPair P q → OfPair P (if b then r else q)
  OfPair-if true r q h k = h
  OfPair-if false r q h k = k

  OfPair-option :
      (x : Option (Bytes × Time)) (r : Pairer × Outcome) (f : Bytes × Time → Pairer × Outcome)
      → OfPair P r
      → ((y : Bytes × Time) → OfPair P (f y))
      → OfPair P (elim x [ none ↦ r | some y ↦ f y ])
  OfPair-option none r f h k = h
  OfPair-option (some y) r f h k = k y

-- The pairer says of the paths of a pair and of all below them that they are suppressed.
abbrev pub Covered : Time → Pairer → DirRename → Type 0
Covered limit s dr =
    (p : Bytes) (now : Time)
    → Under dr.from dr.to p
    → now ≤ limit
    → (is_suppressed p now s).1 ≡ true

pub handle_rename-Covered :
    (window : ℕ) (path : Bytes) (at paired_at : Time) (s : Pairer)
    → OfPair (Covered (paired_at + window)) (handle_rename window path at paired_at s)
unfolding handle_rename
handle_rename-Covered window path at paired_at s =
    let P = Covered (paired_at + window) in
    OfPair-if P (not (is_tracked_dir path s)) _ _ tt (
      OfPair-option P (oldest none (fresh (at - window) s.recent_creates)) _ _ tt
        (λ y p now under h. pair_suppressed path y.0 p (paired_at + window) now _ under h))

pub handle_create-Covered :
    (window : ℕ) (path : Bytes) (is_dir : Bool) (at paired_at : Time) (s : Pairer)
    → OfPair (Covered (paired_at + window)) (handle_create window path is_dir at paired_at s)
unfolding handle_create
handle_create-Covered window path is_dir at paired_at s =
    let P = Covered (paired_at + window) in
    OfPair-if P (not is_dir) _ _ tt (
      OfPair-option P (oldest none s.pending) _ _ tt
        (λ y p now under h. pair_suppressed y.0 path p (paired_at + window) now _ under h))

-- The prefixes of the pairer stay while the watches are moved.
abbrev pub prefixes : Watcher → Map Time
prefixes w = w.pairer.suppressed_prefixes

untrack_all-prefixes :
    (ds : List Bytes) (s : Pairer) → (untrack_all ds s).suppressed_prefixes ≡ s.suppressed_prefixes
unfolding untrack_all untrack_dir
untrack_all-prefixes [] s = refl
untrack_all-prefixes (d ∷ ds) s = untrack_all-prefixes ds _

module _ (excluded : Bytes → Bool) (window : ℕ) (has_store : Bool) (o : World) where
  add_watch-prefixes :
      (p : Bytes) (s : Pairer)
      → (add_watch excluded window has_store o p s).suppressed_prefixes ≡ s.suppressed_prefixes
  unfolding add_watch track_dir
  add_watch-prefixes p s = elim (Bool-cases (o.watch_added p)) [
    | inl e ↦ ap (λ (t : Pairer). t.suppressed_prefixes) (then-branch _ _ e)
    | inr e ↦ ap (λ (t : Pairer). t.suppressed_prefixes) (else-branch _ _ e)
  ]

  debounce-prefixes :
      (p : Bytes) (op : Op) (at : Time) (w : Watcher)
      → prefixes (debounce_path excluded window has_store o p op at w) ≡ prefixes w
  unfolding debounce_path
  debounce-prefixes p op at w =
      elim (Bool-cases (suppress_self_induced excluded window has_store o p op)) [
        | inl e ↦ ap prefixes (then-branch _ _ e)
        | inr e ↦ ap prefixes (else-branch _ _ e)
      ]

  mutual
    unfolding walk_node walk_new_dir

    walk_node-prefixes :
        (emit : Bool) (n : Node) (w : Watcher)
        → prefixes (walk_node excluded window has_store o emit n w) ≡ prefixes w
    walk_node-prefixes emit (dir p kids) w = elim (Bool-cases (excluded p)) [
      | inl e ↦ ap prefixes (then-branch _ _ e)
      | inr e ↦
          ap prefixes (else-branch _ _ e)
          ∙ (walk-prefixes emit kids _ ∙ add_watch-prefixes p w.pairer)
    ]
    walk_node-prefixes emit (file p regular at) w =
        elim (Bool-cases (emit && (regular && not (excluded p)))) [
          | inl e ↦ ap prefixes (then-branch _ _ e) ∙ debounce-prefixes p _ at w
          | inr e ↦ ap prefixes (else-branch _ _ e)
        ]

    walk-prefixes :
        (emit : Bool) (ns : Forest) (w : Watcher)
        → prefixes (walk_new_dir excluded window has_store o emit ns w) ≡ prefixes w
    walk-prefixes emit leaf w = refl
    walk-prefixes emit (branch n ns) w = walk-prefixes emit ns _ ∙ walk_node-prefixes emit n w

  send-prefixes : (e : WatchEvent) (w : Watcher) → prefixes (send e w) ≡ prefixes w
  unfolding send
  send-prefixes e w = elim (Bool-cases (ltb (length w.events) capacity)) [
    | inl c ↦ ap prefixes (then-branch _ _ c)
    | inr c ↦ ap prefixes (else-branch _ _ c)
  ]

  pub pair-prefixes :
      (dr : DirRename) (w : Watcher)
      → prefixes (on_dir_rename_paired excluded window has_store o dr w) ≡ prefixes w
  unfolding on_dir_rename_paired remove_subtree_watches untrack_dir
  pair-prefixes dr w =
      send-prefixes _ _
      ∙ (walk-prefixes false (o.tree dr.to) _
          ∙ (add_watch-prefixes dr.to _ ∙ untrack_all-prefixes _ _))
