-- ===== src/Syncer/Prune/Justified.antt =====
-- x
use home_drive.Base.{
  ℕ, suc, ◌+◌, ◌-◌, ◌^◌, ◌≤◌, ◌<◌, ◌≡◌, List, [], ◌∷◌, ◌⊎◌, All, leb, if◌then◌else◌,
}
use home_drive.Base.Time.{Time}
use home_drive.Syncer.Types.{JournalEntry}
use home_drive.Syncer.Prune.{
  RetentionPolicy, Indexed, Eviction, Reason, max_age_reached, max_per_file_reached,
}

-- Older than the limit on the age, where there is one; a span of time is at most 2^63 - 1.
abbrev pub Expired : RetentionPolicy → Time → JournalEntry → Type 0
Expired policy now e =
    (0 < policy.max_age)
    × ((policy.max_age < 2 ^ 63 - 1) × (policy.max_age < now - e.last_synced_at))

-- How many of the losers were synced at a time or later.
unfoldable pub as_recent : Time → List Indexed → ℕ
as_recent t [] = 0
as_recent t (x ∷ xs) =
    let rest = as_recent t xs in if leb t x.entry.last_synced_at then suc rest else rest

abbrev pub ForReason : RetentionPolicy → Time → List Indexed → JournalEntry → Reason → Type 0
ForReason policy now xs e max_age_reached = Expired policy now e
ForReason policy now xs e max_per_file_reached =
    (0 < policy.max_per_file) × (policy.max_per_file < as_recent e.last_synced_at xs)

-- An entry is evicted.
abbrev pub Evicts : JournalEntry → List Eviction → Type 0
Evicts e [] = ⊥
Evicts e (ev ∷ evs) = (ev.entry ≡ e) ⊎ Evicts e evs

-- The latest first.
abbrev Descending : List Indexed → Type 0
Descending [] = Unit
Descending (x ∷ xs) = All (λ y. y.entry.last_synced_at ≤ x.entry.last_synced_at) xs × Descending xs

module _ (policy : RetentionPolicy) (now : Time) where
  -- From index `i` on.
  abbrev AtIndex : ℕ → List Indexed → JournalEntry → Reason → Type 0
  AtIndex i xs e max_age_reached = Expired policy now e
  AtIndex i xs e max_per_file_reached =
      (0 < policy.max_per_file) × (policy.max_per_file < i + as_recent e.last_synced_at xs)

  abbrev From : ℕ → List Indexed → Eviction → Type 0
  From i xs ev = AtIndex i xs ev.entry ev.reason

  abbrev Gone : List Eviction → Indexed → Type 0
  Gone evs x = Expired policy now x.entry → Evicts x.entry evs

-- What is selected has a reason, and nothing expired is left out.
abbrev pub Retains : RetentionPolicy → Time → List Indexed → List Eviction → Type 0
Retains policy now found evs =
    All (λ ev. ForReason policy now found ev.entry ev.reason) evs
    × All (λ x. Expired policy now x.entry → Evicts x.entry evs) found
