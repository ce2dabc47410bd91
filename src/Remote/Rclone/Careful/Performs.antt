-- ===== src/Remote/Rclone/Careful/Performs.antt =====
-- Every operation of `RcloneFS` is careful with what it found.
use home_drive.Base.{refl}
use home_drive.Base.Text.{Bytes}
use home_drive.Remote.Rclone.{
  and_then, copied_object, copy_file, delete_file, move_file, stat, quota,
}
use home_drive.Remote.Rclone.Careful.{
  Operation, uploads, moves, downloads, deletes, stats, asks_usage, Careful, lookup_cases,
  option_cases, result_cases,
}
use home_drive.Remote.Rclone.Careful.Downloads.{downloads-Careful}

stats-Careful : (p : Bytes) → Careful (stats p)
unfolding Careful and_then stat
stats-Careful p = (
  refl,
  lookup_cases _ (λ o. (refl, (refl, (refl, refl)))) (refl, (refl, (refl, refl)))
      (refl, (refl, (refl, refl))) (λ e. (refl, (refl, (refl, refl)))),
)

asks_usage-Careful : Careful asks_usage
unfolding Careful and_then quota
asks_usage-Careful = (
  tt,
  option_cases _ (refl, (refl, (refl, refl)))
      (result_cases _ (λ u. (refl, (refl, (refl, refl)))) (λ e. (refl, (refl, (refl, refl))))),
)

deletes-Careful : (p : Bytes) → Careful (deletes p)
unfolding Careful and_then delete_file
deletes-Careful p = (
  refl,
  lookup_cases _
      (λ o. (refl, option_cases _ (refl, (refl, (refl, refl))) (λ e. (refl, (refl, (refl, refl))))))
      (refl, (refl, (refl, refl))) (refl, (refl, (refl, refl))) (λ e. (refl, (refl, (refl, refl)))),
)

moves-Careful : (src dst : Bytes) → Careful (moves src dst)
unfolding Careful and_then move_file
moves-Careful src dst = (
  refl,
  lookup_cases _
      (λ o. (
        (refl, refl),
        option_cases _ (refl, (refl, (refl, refl))) (λ e. (refl, (refl, (refl, refl)))),
      ))
      (refl, (refl, (refl, refl))) (refl, (refl, (refl, refl))) (λ e. (refl, (refl, (refl, refl)))),
)

uploads-Careful : (src dir : Bytes) → Careful (uploads src dir)
unfolding Careful and_then copy_file copied_object
uploads-Careful src dir = (
  refl,
  option_cases _
      (
        refl,
        result_cases _
            (λ t. (
              (refl, (refl, refl)),
              result_cases _ (λ o. (refl, (refl, (refl, refl))))
                  (λ e. (refl, (refl, (refl, refl)))),
            ))
            (λ e. (
              refl,
              option_cases _ (refl, (refl, (refl, refl))) (λ x. (refl, (refl, (refl, refl)))),
            )),
      )
      (λ e. (refl, (refl, (refl, refl)))),
)

-- Whatever the answers, an operation of `RcloneFS` asks only for the paths that it was given. It
-- deletes, moves or opens only the object that it found, and opens no dangling shortcut. It uploads
-- the local file that it opened, with the time of that file, under its base name into the folder. It
-- creates a local folder or file only while the stream of the object is open, and sets the time of
-- the file to that of the object only after the whole stream was copied and the file closed. At the
-- end no stream and no file is open. An upload, a move or a deletion succeeds if and only if the
-- call of rclone that does it does, and a download if and only if the whole stream was copied and
-- the file closed; a download that fails may have created or emptied the local file. No other
-- operation creates a local file, and `Stat` and `Quota` change nothing.
pub perform-Careful : (op : Operation) → Careful op
perform-Careful (uploads src dir) = uploads-Careful src dir
perform-Careful (moves src dst) = moves-Careful src dst
perform-Careful (downloads p q) = downloads-Careful p q
perform-Careful (deletes p) = deletes-Careful p
perform-Careful (stats p) = stats-Careful p
perform-Careful asks_usage = asks_usage-Careful
