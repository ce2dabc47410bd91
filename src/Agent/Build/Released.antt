-- ===== src/Agent/Build/Released.antt =====
-- cmd/homedrive/agent.go: what a construction of the agent leaves open.
use home_drive.Base.{
  ℕ, zero, suc, ◌+◌, ◌*◌, ◌^◌, ◌≤◌, ◌<◌, ◌≡◌, refl, arith, Bool, true, false, not, ◌&&◌, ◌||◌, none,
  some, is_empty, inl, inr, Option-cases, if_both,
}
use home_drive.Base.Int.{ℤ, pos, negsuc}
use home_drive.Config.{Config}
use home_drive.OldSuffix.{new}
use home_drive.Agent.{Agent, channel_capacity, capacity_bits}
use home_drive.Control.Server.{ServerConfig, Net, new_server, is_loopback_addr}
use home_drive.Agent.Build.{
  Setup, Resources, Built, failed, panicked, built, close_resources, server_config, new_state,
  build_http_server, build_watcher, build_agent, build_publisher, init_rclone, build_audit_log,
  open_journal, with_flag, new_agent,
}

-- What is open when the agent is built from a configuration.
abbrev pub AllOpen : Config → Resources → Type 0
AllOpen c r =
    (r.journal ≡ true)
    × (r.audit_file ≡ not (is_empty c.state.audit_log))
    × (r.mqtt_client ≡ c.mqtt.enabled)

-- Four for each worker and four more are a capacity that the runtime allows.
abbrev pub Fits : ℕ → ℤ → Type 0
Fits limit (pos n) = (n * 4 + 4 ≤ limit) × (n * 4 + 4 < 2 ^ 63)
Fits limit (negsuc zero) = Unit
Fits limit (negsuc (suc n)) = ⊥

channel_capacity-Fits :
    (limit : ℕ) (workers : ℤ) → channel_capacity limit workers ≡ none → ¬ (Fits limit workers)
unfolding channel_capacity capacity_bits
channel_capacity-Fits limit (pos n) e h = ground (arith, e, h)
channel_capacity-Fits limit (negsuc zero) e h = ground (arith, e)
channel_capacity-Fits limit (negsuc (suc n)) e h = absurd h

-- A construction that fails has closed the journal and the audit file; a panic is that of the
-- channels; one that succeeds has all open, and an endpoint that is of loopback or has a token.
abbrev pub Released : Net → ℕ → Config → Bool → Built → Type 0
Released net limit c dry (failed r) = (r.journal ≡ false) × (r.audit_file ≡ false)
Released net limit c dry (panicked r) = ¬ (Fits limit c.push.workers)
Released net limit c dry (built a server r) =
    AllOpen c r
    × (a.paused ≡ false)
    × (a.reloaded_dry_run ≡ dry)
    × ((is_loopback_addr net server.listen_addr || not (is_empty server.auth_token)) ≡ true)

guarded :
    (net : Net) (given : ServerConfig) {server : ServerConfig}
    → new_server net given ≡ some server
    → (is_loopback_addr net server.listen_addr || not (is_empty server.auth_token)) ≡ true
unfolding new_server
guarded net given h = ground arith

module _ (s : Setup) (c : Config) where
  build_http_server-Released :
      (a : Agent) (r : Resources)
      → AllOpen c r
      → a.paused ≡ false
      → a.reloaded_dry_run ≡ c.dry_run
      → Released s.net s.channel_limit c c.dry_run (build_http_server s c a r)
  unfolding build_http_server close_resources
  build_http_server-Released a r o p d = elim (Option-cases (new_server s.net (server_config c))) [
    | inl e ↦ rw (e, build_http_server) (refl, refl)
    | inr (server, e) ↦ rw (e, build_http_server) (o, p, d, guarded s.net (server_config c) e)
  ]

  build_watcher-Released :
      (n : ℕ) (r : Resources)
      → AllOpen c r
      → Released s.net s.channel_limit c c.dry_run (build_watcher s c (new_state s c n) r)
  unfolding build_watcher close_resources new_state
  build_watcher-Released n r o =
      if_both (Released s.net s.channel_limit c c.dry_run) s.watcher_ready _ _
        (λ _. build_http_server-Released (new_state s c n) r o refl refl) (λ _. (refl, refl))

  build_agent-Released :
      (r : Resources) → AllOpen c r → Released s.net s.channel_limit c c.dry_run (build_agent s c r)
  unfolding build_agent close_resources
  build_agent-Released r o = elim (Option-cases (new c.conflict.old_suffix_format)) [
    | inl e ↦ rw (e, build_agent) (refl, refl)
    | inr (m, e) ↦ elim (Option-cases (channel_capacity s.channel_limit c.push.workers)) [
      | inl f ↦ rw (e, f, build_agent) (channel_capacity-Fits s.channel_limit c.push.workers f)
      | inr (n, f) ↦ rw (e, f, build_agent) (build_watcher-Released n r o)
    ]
  ]

  build_publisher-Released :
      (r : Resources)
      → r.journal ≡ true
      → r.audit_file ≡ not (is_empty c.state.audit_log)
      → r.mqtt_client ≡ false
      → Released s.net s.channel_limit c c.dry_run (build_publisher s c r)
  unfolding build_publisher close_resources
  build_publisher-Released r j a q =
      if_both (Released s.net s.channel_limit c c.dry_run) (not c.mqtt.enabled) _ _
        (λ off. build_agent-Released r (j, a, ground (arith, off, q)))
        (λ on.
          if_both (Released s.net s.channel_limit c c.dry_run) s.mqtt_connects _ _
            (λ _. build_agent-Released _ (j, a, ground (arith, on))) (λ _. (refl, refl)))

  init_rclone-Released :
      (r : Resources)
      → r.journal ≡ true
      → r.audit_file ≡ not (is_empty c.state.audit_log)
      → r.mqtt_client ≡ false
      → Released s.net s.channel_limit c c.dry_run (init_rclone s c r)
  unfolding init_rclone close_resources
  init_rclone-Released r j a q =
      if_both (Released s.net s.channel_limit c c.dry_run) s.rclone_ready _ _
        (λ _. build_publisher-Released r j a q) (λ _. (refl, refl))

  open_journal-Released : Released s.net s.channel_limit c c.dry_run (open_journal s c)
  unfolding open_journal build_audit_log
  open_journal-Released =
      if_both (Released s.net s.channel_limit c c.dry_run)
        (not (s.state_dir_made && s.local_root_made)) _ _ (λ _. (refl, refl))
        (λ _.
          if_both (Released s.net s.channel_limit c c.dry_run) s.journal_opens _ _
            (λ _.
              if_both (Released s.net s.channel_limit c c.dry_run) (is_empty c.state.audit_log) _ _
                (λ off. init_rclone-Released _ refl (rw off refl) refl)
                (λ on.
                  if_both (Released s.net s.channel_limit c c.dry_run)
                    (s.audit_dir_made && s.audit_opens) _ _
                    (λ _. init_rclone-Released _ refl (rw on refl) refl) (λ _. (refl, refl))))
            (λ _. (refl, refl)))

flagged :
    (s : Setup) (c : Config) (flag : Bool)
    → Released s.net s.channel_limit c (flag || c.dry_run) (open_journal s (with_flag flag c))
unfolding with_flag
flagged s c true = open_journal-Released s (record c { dry_run = true })
flagged s c false = open_journal-Released s c

-- If `newAgent` fails after the configuration was loaded, it has closed the journal and the audit
-- file; it panics only if four times the workers and four more are negative, above the limit of the
-- runtime for a channel, or no int64; and if it succeeds, the journal is open, the audit file if one
-- is configured, the MQTT client if it is enabled, the agent is not paused and in a dry run if the
-- flag or the configuration asks for it, and the control endpoint has an address of loopback or a
-- token.
pub new_agent-Released :
    (s : Setup) (c : Config)
    → s.loaded ≡ some c
    → Released s.net s.channel_limit c (s.dry_run_flag || c.dry_run) (new_agent s)
unfolding new_agent
new_agent-Released s c e = rw (e, new_agent) (flagged s c s.dry_run_flag)
