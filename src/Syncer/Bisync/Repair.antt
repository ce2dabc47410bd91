-- ===== src/Syncer/Bisync/Repair.antt =====
-- internal/syncer/repair.go: nested chains of conflict losers are renumbered onto their base.
use home_drive.Base.{ℕ, Bool, false, not, ◌==◌, none, some, List, [], ◌∷◌, ◌++◌, ltb, if◌then◌else◌}
use home_drive.Base.{length}
use home_drive.Base.Text.{Bytes, bytes_lt}
use home_drive.OldSuffix.{Matcher, format, next_old_n, base}
use home_drive.Syncer.Types.{RemoteObject, LocalFileInfo, Origin, local, remote, conflict_repair}
use home_drive.Syncer.Go.{Go, local_rename, remote_move, store_get, store_delete, store_put, audit}
use home_drive.Syncer.Go.{
  ok, fail, pure, perform, check, tell, attempt, scoped, read_state, write_state, ◌>>=◌, ◌>>◌,
}
use home_drive.Base.Maps.{remove_path, has_path, mark}

pub record RepairedLink : Type 0 where
  pub old_path : Bytes
  pub new_path : Bytes
  pub side : Origin

pub record Report : Type 0 where
  pub scanned : ℕ
  pub links : List RepairedLink

-- The matcher, the dry run and the presence of the auditor.
pub record RepairDeps : Type 0 where
  pub matcher : Matcher
  pub dry_run : Bool
  pub has_auditor : Bool

pub record Candidate : Type 0 where
  pub path : Bytes
  pub base : Bytes
  pub depth : ℕ
  pub side : Origin

-- The two sets of paths of a pass, each without a repetition.
pub record PathSets : Type 0 where
  pub locals : List Bytes
  pub remotes : List Bytes

unfoldable pub local_set : List LocalFileInfo → List Bytes → List Bytes
local_set [] acc = acc
local_set (l ∷ ls) acc = local_set ls (mark l.path acc)

unfoldable pub remote_set : List RemoteObject → List Bytes → List Bytes
remote_set [] acc = acc
remote_set (r ∷ rs) acc = remote_set rs (mark r.path acc)

-- The loop over one of the sets.
unfoldable pub candidates_of : Matcher → Origin → List Bytes → List Bytes → List Candidate
candidates_of m side paths [] = []
candidates_of m side paths (p ∷ ps) =
    let rest = candidates_of m side paths ps in
    if ltb (base m p).1 2
    then rest
    else if not (has_path paths (base m p).0)
    then rest
    else record { path = p; base = (base m p).0; depth = (base m p).1; side = side } ∷ rest

-- The order of `sort.Slice`: deeper first, then by path.
unfoldable pub precedes : Candidate → Candidate → Bool
precedes a b = if a.depth == b.depth then bytes_lt a.path b.path else ltb b.depth a.depth

unfoldable pub place : Candidate → List Candidate → List Candidate
place a [] = a ∷ []
place a (b ∷ bs) = if precedes b a then b ∷ place a bs else a ∷ b ∷ bs

unfoldable pub in_order : List Candidate → List Candidate
in_order [] = []
in_order (a ∷ rest) = place a (in_order rest)

unfoldable pub find_candidates : Matcher → PathSets → List Candidate
find_candidates m sets = in_order (
    candidates_of m local sets.locals sets.locals
    ++ candidates_of m remote sets.remotes sets.remotes)

unfoldable pub set_of : PathSets → Origin → List Bytes
set_of sets local = sets.locals
set_of sets remote = sets.remotes

unfoldable pub moved : PathSets → Origin → Bytes → Bytes → PathSets
moved sets local p q = record sets { locals = mark q (remove_path p sets.locals) }
moved sets remote p q = record sets { remotes = mark q (remove_path p sets.remotes) }

module _ (deps : RepairDeps) where
  -- The base that `NextOldN` returns is dropped in favour of that of the candidate.
  unfoldable pub target : PathSets → Candidate → Bytes
  target sets c =
      format deps.matcher c.base (next_old_n deps.matcher c.base (has_path (set_of sets c.side))).1

  unfoldable pub rename_link : Candidate → Bytes → Go PathSets Unit
  rename_link c new_path = elim c.side [
    | local ↦ perform (local_rename c.path new_path) >>= check
    | remote ↦ perform (remote_move c.path new_path) >>= check
  ]

  -- The errors of reading and of deleting the entry are dropped.
  unfoldable pub carry_entry : Candidate → Bytes → Go PathSets Unit
  carry_entry c new_path = do
    got ← perform (store_get c.path)
    _ ← perform (store_delete c.path)
    elim got [
      | fail _ ↦ pure tt
      | ok none ↦ pure tt
      | ok (some entry) ↦ perform (store_put (record entry { path = new_path })) >>= check
    ]

  unfoldable pub repair_one : Candidate → Bytes → Go PathSets Unit
  repair_one c new_path = do
    rename_link c new_path
    sets ← read_state
    write_state (moved sets c.side c.path new_path)
    carry_entry c new_path
    if deps.has_auditor
        then tell (
            audit (record {
              op = conflict_repair new_path;
              path = c.path;
              dry_run = false;
              failed = false;
            }))
        else pure tt

  unfoldable pub repair_all : List Candidate → Go PathSets (List RepairedLink)
  repair_all [] = pure []
  repair_all (c ∷ cs) = read_state >>= λ sets.
      let new_path = target sets c in
      let link : RepairedLink = record { old_path = c.path; new_path = new_path; side = c.side } in
      if deps.dry_run
      then (repair_all cs >>= λ more. pure (link ∷ more))
      else (attempt (repair_one c new_path) >>= λ r.
          repair_all cs >>= λ more. pure (elim r [ ok _ ↦ link ∷ more | fail _ ↦ more ]))

  unfoldable pub repair_chains : {S : Type 0} → List LocalFileInfo → List RemoteObject → Go S Report
  repair_chains locals remotes =
      let sets : PathSets = record {
        locals = local_set locals [];
        remotes = remote_set remotes [];
      } in
      let candidates = find_candidates deps.matcher sets in
      scoped sets (repair_all candidates) >>= λ links.
      pure (record { scanned = length candidates; links = links })
