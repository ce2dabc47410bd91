-- ===== src/Mqtt/Closed.antt =====
-- internal/mqtt/mqtt.go: `Close`, however often and between whatever else.
use home_drive.Base.{
  ℕ, suc, ◌+◌, ◌≡◌, refl, arith, Bool, true, false, none, some, List, [], ◌∷◌, ◌++◌, if◌then◌else◌,
}
use home_drive.Base.Text.{Bytes, codes}
use home_drive.Mqtt.{
  Config, new_client, online_message, raw, encoded, Client, Action, published, disconnected,
  Payload, publish, close, on_connect, to_bytes, counted,
}

-- A publication with its token, a close with whether the connection is open, a connection.
pub data Input : Type 0 where
  publishes : Bytes → ℕ → Bool → Payload → Bool → Input
  closes connects : Bool → Input

unfoldable pub step : Input → Client → Client
step (publishes t qos retain payload good) c = (publish t qos retain payload good c).1
step (closes is_open) c = close is_open c
step (connects in_time) c = on_connect in_time c

unfoldable pub run : List Input → Client → Client
run [] c = c
run (i ∷ is) c = run is (step i c)

abbrev pub disconnections : List Action → ℕ
disconnections [] = 0
disconnections (published m ∷ rest) = disconnections rest
disconnections (disconnected ∷ rest) = suc (disconnections rest)

abbrev pub is_close : Input → Bool
is_close (publishes _ _ _ _ _) = false
is_close (closes _) = true
is_close (connects _) = false

abbrev pub has_close : List Input → Bool
has_close [] = false
has_close (i ∷ is) = if is_close i then true else has_close is

disconnections-append :
    (xs ys : List Action) → disconnections (xs ++ ys) ≡ disconnections xs + disconnections ys
disconnections-append [] ys = omega arith
disconnections-append (published m ∷ xs) ys = disconnections-append xs ys
disconnections-append (disconnected ∷ xs) ys = omega (arith, disconnections-append xs ys)

-- A client is disconnected once it is closed, and once only.
abbrev pub Consistent : Client → Type 0
Consistent c = disconnections c.actions ≡ (if c.closed then 1 else 0)

step-Consistent :
    (i : Input) (c : Client)
    → Consistent c
    → Consistent (step i c) × ((step i c).closed ≡ (if is_close i then true else c.closed))
unfolding step publish close on_connect counted to_bytes
step-Consistent (publishes t qos retain (raw s) good) c h = ground (
  arith,
  disconnections-append c.actions
      (published (record { topic = t; qos = qos; retain = retain; payload = s }) ∷ []),
)
step-Consistent (publishes t qos retain (encoded none) good) c h = (h, refl)
step-Consistent (publishes t qos retain (encoded (some s)) good) c h = ground (
  arith,
  disconnections-append c.actions
      (published (record { topic = t; qos = qos; retain = retain; payload = s }) ∷ []),
)
step-Consistent (closes is_open) c h = ground (
  arith,
  disconnections-append c.actions (published (online_message c (codes "offline")) ∷ []),
  disconnections-append c.actions (disconnected ∷ []),
  disconnections-append (c.actions ++ published (online_message c (codes "offline")) ∷ [])
      (disconnected ∷ []),
)
step-Consistent (connects in_time) c h =
    ground
      (arith, disconnections-append c.actions (published (online_message c (codes "online")) ∷ []))

run-lem :
    (is : List Input) (c : Client)
    → Consistent c
    → Consistent (run is c) × ((run is c).closed ≡ (if has_close is then true else c.closed))
unfolding run
run-lem [] c h = (h, refl)
run-lem (i ∷ is) c h =
    let (k, e) = step-Consistent i c h in
    let (r, f) = run-lem is (step i c) k in (r, ground (arith, e, f))

-- In a run of a new client, with its publications, closes and connections in any order, it is
-- disconnected from the broker once if it is closed at all, and otherwise never.
pub run-Consistent :
    (cfg : Config) (host user : Bytes) (is : List Input)
    → disconnections (run is (new_client cfg host user)).actions ≡ (if has_close is then 1 else 0)
unfolding new_client
run-Consistent cfg host user is =
    let (h, e) = run-lem is (new_client cfg host user) refl in ground (arith, h, e)
