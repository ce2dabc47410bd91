-- ===== src/Control/Metrics.antt =====
-- internal/http/metrics.go: counters and gauges by their names. A value is an int64 as its bit
-- pattern.
use home_drive.Base.{ℕ, ◌+◌, ◌%◌, ◌^◌, none, some, List, [], ◌∷◌, ◌++◌, if◌then◌else◌}
use home_drive.Base.Text.{Bytes, bytes_lt}
use home_drive.Base.Maps.{Map, lookup, store}

pub data MetricType : Type 0 where
  counter gauge : MetricType

pub record Metrics : Type 0 where
  pub counters : Map ℕ
  pub gauges : Map ℕ

pub record MetricEntry : Type 0 where
  pub name : Bytes
  pub typ : MetricType
  pub value : ℕ

abbrev pub new_metrics : Metrics
new_metrics = record { counters = []; gauges = [] }

-- `LoadOrStore` of a zero.
unfoldable pub value_of : Bytes → Map ℕ → ℕ
value_of name m = elim (lookup name m) [ none ↦ 0 | some n ↦ n ]

unfoldable pub add_counter : Bytes → ℕ → Metrics → Metrics
add_counter name delta m = record m {
  counters = store name ((value_of name m.counters + delta) % 2 ^ 64) m.counters;
}

unfoldable pub inc_counter : Bytes → Metrics → Metrics
inc_counter name m = add_counter name 1 m

unfoldable pub set_gauge : Bytes → ℕ → Metrics → Metrics
set_gauge name value m = record m { gauges = store name (value % 2 ^ 64) m.gauges }

unfoldable pub collect : MetricType → Map ℕ → List MetricEntry
collect typ [] = []
collect typ ((name, n) ∷ rest) = record { name = name; typ = typ; value = n } ∷ collect typ rest

-- `sort.Slice` by the names.
unfoldable pub insert_entry : MetricEntry → List MetricEntry → List MetricEntry
insert_entry e [] = e ∷ []
insert_entry e (x ∷ xs) =
    let more = insert_entry e xs in if bytes_lt x.name e.name then x ∷ more else e ∷ (x ∷ xs)

unfoldable pub sort_entries : List MetricEntry → List MetricEntry
sort_entries [] = []
sort_entries (e ∷ es) = insert_entry e (sort_entries es)

-- The entries that `WriteTo` prints, in their order.
unfoldable pub write_to : Metrics → List MetricEntry
write_to m = sort_entries (collect counter m.counters ++ collect gauge m.gauges)
