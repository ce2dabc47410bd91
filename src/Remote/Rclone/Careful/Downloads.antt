-- ===== src/Remote/Rclone/Careful/Downloads.antt =====
-- A download closes what it opens.
use home_drive.Base.{◌≡◌, refl, ◌∙◌, if◌then◌else◌, Bool, true, false, ◌||◌, Option, some, [], ◌∷◌}
use home_drive.Base.Text.{Bytes, bytes_eq}
use home_drive.Syncer.Types.{Error, dangling_shortcut}
use home_drive.Remote.Rclone.{
  Object, open_object, close_stream, close_local, done, ask, guarded, deferred,
  dangling_shortcut_mime_type, fill_local, write_local, download_object, download_file,
}
use home_drive.Remote.Rclone.Watched.{Passes, Passes-and_then, Passes-deferred}
use home_drive.Remote.Rclone.Careful.{
  downloads, succeeds, Held, nothing_held, holding, Settled, Careful, lookup_cases, option_cases,
}

open_or_copied : (a b : Bool) → b ≡ false → (a || b) ≡ a
open_or_copied true b h = refl
open_or_copied false b h = h

module _ (p q : Bytes) where
  abbrev Filled : Held → Option Error → Type 0
  Filled h r =
      (h.stream ≡ true) × ((h.copied ≡ false) × ((h.complete ≡ succeeds r) × (h.created ≡ true)))

  abbrev Written : Held → Option Error → Type 0
  Written h r =
      (h.stream ≡ true)
      × ((h.file ≡ false) × ((h.complete ≡ succeeds r) × (succeeds r ≡ true → h.created ≡ true)))

  abbrev after_open : Object → Held
  after_open o = record nothing_held { object = some o; stream = true }

  fill_local-Filled :
      (o : Object)
      → Passes
          (holding (downloads p q))
          Filled
          (record (after_open o) { file = true; created = true })
          (fill_local o q)
  unfolding fill_local guarded
  fill_local-Filled o = (
    (refl, refl),
    option_cases _
        (
          tt,
          option_cases _
              (
                (refl, (refl, refl)),
                option_cases _ (refl, (refl, (refl, refl))) (λ e. (refl, (refl, (refl, refl)))),
              )
              (λ e. (refl, (refl, (refl, refl)))),
        )
        (λ e. (refl, (refl, (refl, refl)))),
  )

  write_local-Written :
      (o : Object) → Passes (holding (downloads p q)) Written (after_open o) (write_local o q)
  unfolding write_local guarded
  write_local-Written o = (
    (refl, refl),
    option_cases _
        (
          (refl, refl),
          option_cases _
              (Passes-deferred _ Filled Written (fill_local o q) close_local _ (fill_local-Filled o)
                (λ n r h. (
                  tt,
                  option_cases _
                      (
                        h.0,
                        (refl, (open_or_copied n.complete n.copied h.1.0 ∙ h.1.1.0, λ _. h.1.1.1)),
                      )
                      (λ e. (h.0, (refl, (h.1.1.0, λ _. h.1.1.1)))),
                )))
              (λ e. (refl, (refl, (refl, λ z. cc z)))),
        )
        (λ e. (refl, (refl, (refl, λ z. cc z)))),
  )

  abbrev Downloaded : Held → Option Error → Type 0
  Downloaded h r = Settled (downloads p q) h (succeeds r)

  download_object-Downloaded :
      (o : Object) (b : Bool)
      → bytes_eq o.mime_type dangling_shortcut_mime_type ≡ b
      → Passes
          (holding (downloads p q))
          Downloaded
          (record nothing_held { object = some o })
          (if b
            then done (some (record { wraps = dangling_shortcut ∷ [] }))
            else ask (open_object o) (λ r. guarded r (deferred (write_local o q) close_stream)))
  unfolding guarded
  download_object-Downloaded o true e = (refl, (refl, (refl, λ z. cc z)))
  download_object-Downloaded o false e = (
    (refl, e),
    option_cases _
        (Passes-deferred _ Written Downloaded (write_local o q) close_stream _
          (write_local-Written o) (λ n r h. (h.0, λ x. (refl, h.1))))
        (λ x. (refl, (refl, (refl, λ z. cc z)))),
  )

  download_file-Downloaded :
      Passes (holding (downloads p q)) Downloaded nothing_held (download_file p q)
  unfolding download_file download_object
  download_file-Downloaded = (
    refl,
    lookup_cases _ (λ o. download_object-Downloaded o _ refl) (refl, (refl, (refl, λ z. cc z)))
        (refl, (refl, (refl, λ z. cc z))) (λ e. (refl, (refl, (refl, λ z. cc z)))),
  )

  pub downloads-Careful : Careful (downloads p q)
  unfolding Careful
  downloads-Careful =
      Passes-and_then _ Downloaded (Settled (downloads p q)) (download_file p q) _ _
        download_file-Downloaded (λ n r h. h)
