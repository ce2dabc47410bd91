-- ===== src/Remote/Doubles/Frozen.antt =====
-- internal/rcloneclient/dryrunfs.go: a dry run writes nothing.
use home_drive.Base.{
  ◌≡◌, refl, sym, ap, ◌∙◌, Bool, true, false, Option, none, some, List, [], ◌∷◌, inl, inr,
  Bool-cases, then-branch, else-branch, if◌then◌else◌,
}
use home_drive.Remote.Fs.{RemoteFs}
use home_drive.Remote.Doubles.{
  RemoteCall, Reply, copies, moves, downloads, deletes, stats, lists, lists_changes, asks_token,
  asks_quota, answer, answers, dry_run_fs,
}

abbrev pub is_write : RemoteCall → Bool
is_write (copies _ _) = true
is_write (moves _ _) = true
is_write (deletes _) = true
is_write (downloads _ _) = false
is_write (stats _) = false
is_write (lists _) = false
is_write (lists_changes _) = false
is_write asks_token = false
is_write asks_quota = false

abbrev pub only_reads : List RemoteCall → List RemoteCall
only_reads [] = []
only_reads (c ∷ cs) = if is_write c then only_reads cs else c ∷ only_reads cs

-- The replies to the calls that read.
abbrev pub read_replies : List RemoteCall → List Reply → List Reply
read_replies [] rs = []
read_replies (c ∷ cs) [] = []
read_replies (c ∷ cs) (r ∷ rs) = if is_write c then read_replies cs rs else r ∷ read_replies cs rs

module _ {S : Type 0} where
  abbrev pub of_reads : List RemoteCall → Option (List Reply × S) → Option (List Reply × S)
  of_reads cs none = none
  of_reads cs (some (rs, u)) = some (read_replies cs rs, u)

  abbrev with_reply : Reply → Option (List Reply × S) → Option (List Reply × S)
  with_reply r o = elim o [ none ↦ none | some (rs, u) ↦ some (r ∷ rs, u) ]

  skipped :
      (c : RemoteCall) (cs : List RemoteCall) (r : Reply) (o : Option (List Reply × S))
      → is_write c ≡ true
      → of_reads (c ∷ cs) (with_reply r o) ≡ of_reads cs o
  skipped c cs r none w = refl
  skipped c cs r (some (rs, u)) w = rw w refl

  kept :
      (c : RemoteCall) (cs : List RemoteCall) (r : Reply) (o : Option (List Reply × S))
      → is_write c ≡ false
      → of_reads (c ∷ cs) (with_reply r o) ≡ with_reply r (of_reads cs o)
  kept c cs r none w = refl
  kept c cs r (some (rs, u)) w = rw w refl

module _ {S : Type 0} (inner : RemoteFs S) where
  write-answer :
      (c : RemoteCall) (s : S)
      → is_write c ≡ true
      → (r : Reply) × (answer (dry_run_fs inner) c s ≡ some (r, s))
  unfolding dry_run_fs
  write-answer (copies src dst) s w = (_, refl)
  write-answer (moves src dst) s w = (_, refl)
  write-answer (deletes p) s w = (_, refl)
  write-answer (downloads p q) s w = cc
  write-answer (stats p) s w = cc
  write-answer (lists p) s w = cc
  write-answer (lists_changes p) s w = cc
  write-answer asks_token s w = cc
  write-answer asks_quota s w = cc

  read-answer :
      (c : RemoteCall) (s : S)
      → is_write c ≡ false
      → answer (dry_run_fs inner) c s ≡ answer inner c s
  unfolding dry_run_fs
  read-answer (copies src dst) s w = cc
  read-answer (moves src dst) s w = cc
  read-answer (deletes p) s w = cc
  read-answer (downloads p q) s w = refl
  read-answer (stats p) s w = refl
  read-answer (lists p) s w = refl
  read-answer (lists_changes p) s w = refl
  read-answer asks_token s w = refl
  read-answer asks_quota s w = refl

  -- From what the inner one answers to a call that reads.
  after_read :
      (c : RemoteCall) (cs : List RemoteCall) (o : Option (Reply × S))
      → is_write c ≡ false
      → ((t : S) → of_reads cs (answers (dry_run_fs inner) cs t) ≡ answers inner (only_reads cs) t)
      → of_reads
          (c ∷ cs)
          (elim o [ none ↦ none | some (r, t) ↦ with_reply r (answers (dry_run_fs inner) cs t) ])
        ≡ elim o [ none ↦ none | some (r, t) ↦ with_reply r (answers inner (only_reads cs) t) ]
  after_read c cs none w ih = refl
  after_read c cs (some (r, t)) w ih =
      kept c cs r (answers (dry_run_fs inner) cs t) w ∙ ap (with_reply r) (ih t)

  -- The answer of the first call put in place of that call.
  first_call :
      (c : RemoteCall) (cs : List RemoteCall) (s : S) {o : Option (Reply × S)}
      → answer (dry_run_fs inner) c s ≡ o
      → of_reads (c ∷ cs) (answers (dry_run_fs inner) (c ∷ cs) s)
        ≡ of_reads
            (c ∷ cs)
            (elim o [ none ↦ none | some (r, t) ↦ with_reply r (answers (dry_run_fs inner) cs t) ])
  first_call c cs s e =
      ap
        (λ o.
          of_reads (c ∷ cs)
            (elim o [ none ↦ none | some (r, t) ↦ with_reply r (answers (dry_run_fs inner) cs t) ]))
        e

  -- Whatever is asked of a `DryRunFS`, the inner remote ends as if only the calls that read had
  -- been made of it, and their replies are those that it gives then.
  pub answers-Frozen :
      (cs : List RemoteCall) (s : S)
      → of_reads cs (answers (dry_run_fs inner) cs s) ≡ answers inner (only_reads cs) s
  answers-Frozen [] s = refl
  answers-Frozen (c ∷ cs) s = elim (Bool-cases (is_write c)) [
    | inl w ↦
        let (r, e) = write-answer c s w in
        first_call c cs s e
        ∙ (skipped c cs r (answers (dry_run_fs inner) cs s) w
            ∙ (answers-Frozen cs s ∙ ap (λ x. answers inner x s) (sym (then-branch _ _ w))))
    | inr w ↦
        first_call c cs s (read-answer c s w)
        ∙ (after_read c cs (answer inner c s) w (answers-Frozen cs)
            ∙ ap (λ x. answers inner x s) (sym (else-branch _ _ w)))
  ]
