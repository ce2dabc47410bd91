-- ===== src/Control/Guarded.antt =====
-- internal/http/server.go and handlers.go: what a request can do, and who may send it.
use home_drive.Base.{
  ◌≡◌, ◌≢◌, refl, sym, ap, ◌∙◌, Bool, true, false, ◌&&◌, ◌||◌, some, List, [], ◌∷◌, ◌++◌, ◌==◌,
  length, is_empty, drop, if◌then◌else◌, arith, inl, inr, Bool-cases, then-branch, else-branch,
}
use home_drive.Base.Text.{Bytes, codes, bytes_eq, has_prefix, bytes_eq_iff}
use home_drive.Control.Metrics.{Metrics}
use home_drive.Control.Server.{
  Deps, ServerConfig, Net, Request, Response, Handler, text, new_server, is_loopback_addr,
  has_valid_bearer_token, with_auth, method_only, mux, routes, handlers, handle_status,
  handle_pause, handle_resume, handle_resync, handle_reload, handle_conflict_repair, handle_healthz,
  handle_metrics,
}

abbrev pub unauthorized : Response
unauthorized = record { code = 401; www_authenticate = true; allow = []; body = text }

-- Whether the header is exactly the token of the configuration, where that has one.
abbrev pub is_authorized : ServerConfig → Request → Bool
is_authorized cfg r =
    is_empty cfg.auth_token || bytes_eq r.authorization (codes "Bearer " ++ cfg.auth_token)

and-and-eq : (a b c d : Bool) → (b && c) ≡ d → ((a && b) && c) ≡ (a && d)
and-and-eq true b c d h = h
and-and-eq false b c d h = refl

prefix-and-rest :
    (p s w : Bytes) → (has_prefix s p && bytes_eq (drop (length p) s) w) ≡ bytes_eq s (p ++ w)
unfolding has_prefix bytes_eq
prefix-and-rest [] s w = refl
prefix-and-rest (x ∷ p) [] w = refl
prefix-and-rest (x ∷ p) (y ∷ s) w =
    and-and-eq (y == x) (has_prefix s p) (bytes_eq (drop (length p) s) w) _ (prefix-and-rest p s w)

valid-eq :
    (header want : Bytes)
    → has_valid_bearer_token header want ≡ bytes_eq header (codes "Bearer " ++ want)
unfolding has_valid_bearer_token
valid-eq header want = prefix-and-rest (codes "Bearer ") header want

module _ {S : Type 0} (deps : Deps S) where
  -- What the five paths that accept a POST do to what is controlled.
  abbrev pub effect : Bytes → Bytes → S → S
  effect path dry_run s =
      if bytes_eq path (codes "/pause")
      then (deps.pause s).1
      else if bytes_eq path (codes "/resume")
      then (deps.resume s).1
      else if bytes_eq path (codes "/resync")
      then (deps.force_resync s).1
      else if bytes_eq path (codes "/reload")
      then (deps.reload s).1
      else if bytes_eq path (codes "/conflict/repair")
      then (deps.run_chain_repair (bytes_eq dry_run (codes "1")) s).1
      else s

  unauthorized-routes :
      (cfg : ServerConfig) (r : Request) (m : Metrics) (s : S)
      → is_authorized cfg r ≡ false
      → routes deps cfg r m s ≡ (unauthorized, m, s)
  unfolding routes with_auth
  unauthorized-routes cfg r m s h = rw (valid-eq r.authorization cfg.auth_token) (else-branch _ _ h)

  authorized-routes :
      (cfg : ServerConfig) (r : Request) (m : Metrics) (s : S)
      → is_authorized cfg r ≡ true
      → routes deps cfg r m s ≡ mux (handlers deps cfg) r m s
  unfolding routes with_auth
  authorized-routes cfg r m s h = rw (valid-eq r.authorization cfg.auth_token) (then-branch _ _ h)

  -- What a handler leaves of the things that are controlled.
  abbrev Leaves : Handler S → Request → Metrics → S → S → Type 0
  Leaves h r m s x = (h r m s).2 ≡ x

  if_state :
      (b : Bool) (p q : Response × Metrics × S) (x y : S)
      → p.2 ≡ x
      → q.2 ≡ y
      → (if b then p else q).2 ≡ (if b then x else y)
  if_state true p q x y e f = e
  if_state false p q x y e f = f

  mux-Leaves :
      (path : Bytes) (h : Handler S) (rest : List (Bytes × Handler S)) (r : Request) (m : Metrics)
      (s : S) (x y : S)
      → Leaves h r m s x
      → Leaves (mux rest) r m s y
      → Leaves (mux ((path, h) ∷ rest)) r m s (if bytes_eq r.path path then x else y)
  unfolding mux
  mux-Leaves path h rest r m s x y e f =
      if_state (bytes_eq r.path path) (h r m s) (mux rest r m s) x y e f

  if_same : (b : Bool) (x : S) → (if b then x else x) ≡ x
  if_same true x = refl
  if_same false x = refl

  kept :
      (method : Bytes) (h : Handler S) (r : Request) (m : Metrics) (s : S)
      → Leaves h r m s s
      → Leaves (method_only method h) r m s s
  unfolding method_only
  kept method h r m s e =
      if_state (bytes_eq r.method method) _ _ s s e refl ∙ if_same (bytes_eq r.method method) s

  posted :
      (h : Handler S) (r : Request) (m : Metrics) (s x : S)
      → Leaves h r m s x
      → Leaves
          (method_only (codes "POST") h)
          r
          m
          s
          (if bytes_eq r.method (codes "POST") then x else s)
  unfolding method_only
  posted h r m s x e = if_state (bytes_eq r.method (codes "POST")) _ _ x s e refl

  handle_status-Leaves : (r : Request) (m : Metrics) (s : S) → Leaves (handle_status deps) r m s s
  unfolding handle_status
  handle_status-Leaves r m s = ground arith

  handle_healthz-Leaves : (r : Request) (m : Metrics) (s : S) → Leaves (handle_healthz deps) r m s s
  unfolding handle_healthz
  handle_healthz-Leaves r m s = ground arith

  metrics-Leaves :
      (b : Bool) (path : Bytes) (h : Handler S) (r : Request) (m : Metrics) (s : S)
      → Leaves h r m s s
      → Leaves (mux (if b then (path, h) ∷ [] else [])) r m s s
  unfolding mux
  metrics-Leaves true path h r m s e =
      if_state (bytes_eq r.path path) _ _ s s e refl ∙ if_same (bytes_eq r.path path) s
  metrics-Leaves false path h r m s e = refl

  status-effect :
      (path dry_run : Bytes) (s : S) → path ≡ codes "/status" → effect path dry_run s ≡ s
  unfolding bytes_eq
  status-effect path dry_run s e = ap (λ p. effect p dry_run s) e

  -- The tests of the method moved out of the tests of the path.
  method_out :
      (post a b c d e last : Bool) (va vb vc vd ve s : S)
      → (if a
          then (if post then va else s)
          else if b
          then (if post then vb else s)
          else if c
          then (if post then vc else s)
          else if d
          then (if post then vd else s)
          else if e
          then (if post then ve else s)
          else if last
          then s
          else s)
        ≡ (if post
            then if a
              then va
              else if b
              then vb
              else if c
              then vc
              else if d
              then vd
              else if e
              then ve
              else s
            else s)
  method_out post a b c d e last va vb vc vd ve s = ground arith

  without_status :
      (r : Request) (s : S) {x : S}
      → x ≡ (if bytes_eq r.method (codes "POST") then effect r.path r.dry_run s else s)
      → (if bytes_eq r.path (codes "/status") then s else x)
        ≡ (if bytes_eq r.method (codes "POST") then effect r.path r.dry_run s else s)
  without_status r s e = elim (Bool-cases (bytes_eq r.path (codes "/status"))) [
    | inl t ↦
        then-branch _ _ t
        ∙ sym (
            ap (λ z. if bytes_eq r.method (codes "POST") then z else s)
              (status-effect r.path r.dry_run s ((bytes_eq_iff r.path (codes "/status")).0 t))
            ∙ if_same (bytes_eq r.method (codes "POST")) s)
    | inr t ↦ else-branch _ _ t ∙ e
  ]

  mux-effect :
      (cfg : ServerConfig) (r : Request) (m : Metrics) (s : S)
      → Leaves
          (mux (handlers deps cfg))
          r
          m
          s
          (if bytes_eq r.method (codes "POST") then effect r.path r.dry_run s else s)
  unfolding handle_metrics handle_pause handle_resume handle_resync handle_reload
      handle_conflict_repair
  mux-effect cfg r m s =
      mux-Leaves _ _ _ r m s _ _ (kept _ (handle_status deps) r m s (handle_status-Leaves r m s)) (
        mux-Leaves _ _ _ r m s _ _ (posted (handle_pause deps) r m s _ refl) (
          mux-Leaves _ _ _ r m s _ _ (posted (handle_resume deps) r m s _ refl) (
            mux-Leaves _ _ _ r m s _ _ (posted (handle_resync deps) r m s _ refl) (
              mux-Leaves _ _ _ r m s _ _ (posted (handle_reload deps) r m s _ refl) (
                mux-Leaves _ _ _ r m s _ _ (posted (handle_conflict_repair deps) r m s _ refl) (
                  mux-Leaves _ _ _ r m s _ _
                    (kept _ (handle_healthz deps) r m s (handle_healthz-Leaves r m s))
                    (metrics-Leaves cfg.enable_metrics _ _ r m s
                      (kept _ (handle_metrics deps) r m s refl))))))))
      ∙ without_status r s (
          method_out (bytes_eq r.method (codes "POST")) (bytes_eq r.path (codes "/pause"))
            (bytes_eq r.path (codes "/resume")) (bytes_eq r.path (codes "/resync"))
            (bytes_eq r.path (codes "/reload")) (bytes_eq r.path (codes "/conflict/repair"))
            (bytes_eq r.path (codes "/healthz")) _ _ _ _ _ s)

  -- A request changes what is controlled only if it is authorized and a POST, and then by the
  -- operation of its path.
  pub routes-effect :
      (cfg : ServerConfig) (r : Request) (m : Metrics) (s : S)
      → (routes deps cfg r m s).2 ≡ (
          if is_authorized cfg r && bytes_eq r.method (codes "POST")
          then effect r.path r.dry_run s
          else s)
  routes-effect cfg r m s = elim (Bool-cases (is_authorized cfg r)) [
    | inl t ↦ rw (authorized-routes cfg r m s t, t) (mux-effect cfg r m s)
    | inr t ↦ rw (unauthorized-routes cfg r m s t, t) refl
  ]

guarded :
    (net : Net) (given cfg : ServerConfig)
    → new_server net given ≡ some cfg
    → is_loopback_addr net cfg.listen_addr ≡ false
    → is_empty cfg.auth_token ≡ false
unfolding new_server
guarded net given cfg h k = ground arith

-- A server that is made for an address that is not of loopback has a token, and answers a request
-- without the header of that token by 401, with its metrics and what it controls as they were.
pub routes-Guarded :
    {S : Type 0} (deps : Deps S) (net : Net) (given cfg : ServerConfig) (r : Request) (m : Metrics)
    (s : S)
    → new_server net given ≡ some cfg
    → is_loopback_addr net cfg.listen_addr ≡ false
    → r.authorization ≢ codes "Bearer " ++ cfg.auth_token
    → (is_empty cfg.auth_token ≡ false) × (routes deps cfg r m s ≡ (unauthorized, m, s))
routes-Guarded deps net given cfg r m s made open_addr wrong =
    let token = guarded net given cfg made open_addr in
    (
      token,
      unauthorized-routes deps cfg r m s (elim (Bool-cases (is_authorized cfg r)) [
        | inl t ↦ absurd (wrong ((bytes_eq_iff _ _).0 (rw token at t)))
        | inr t ↦ t
      ]),
    )
