-- ===== src/Engine/Planned.antt =====
-- engine.go: planning a local change agrees with applying it, and what is written supersedes the entry
-- that was there.
use cross_sync.Engine.Content.{same_content}
use cross_sync.Base.{
  list_eq, nat_eq, List, Option, Bool, [], false, if◌then◌else◌, inl, inr, none, not, refl, some,
  true, ◌==◌, ◌∷◌, ◌≡◌, ◌⊎◌,
}
use cross_sync.Index.Files.{
  FileInfo, FileName, Result, Error, content_differs, err, ok, same_path, source_gone,
  target_indexed, tombstone, unhandled_kind,
}
use cross_sync.Index.Query.{get}
use cross_sync.Index.Batch.{has_failed}
use cross_sync.Version.{bump, Vector}
use cross_sync.Engine.State.{Engine}
use cross_sync.Engine.Local.{
  store, ChangeKind, added, apply_local_change, apply_local_rename, apply_other, deleted,
  is_receive_only, modified, plan_change, plan_rename, plan_target, rename_live, renamed,
  renamed_to, skipped, stored, then_store, touched, unchanged, written, next_version, type_of,
}

abbrev Fails : Engine → Engine × Result (Option FileInfo) → Type 0
Fails e r = (r.0 ≡ e) × (has_failed r.1 ≡ true)

-- What applying a plan comes to: one stored entry, or a failure that leaves the engine as it was.
abbrev pub Follows : Engine → Option FileInfo → Engine × Result (Option FileInfo) → Type 0
Follows e none r = Fails e r
Follows e (some out) r = r ≡ stored (store e out)

apply_other-Follows :
    (e : Engine) (kind : ChangeKind) (fi : FileInfo)
    → Follows e (plan_change e kind fi) (apply_other e kind fi)
unfolding plan_change apply_other written
apply_other-Follows e kind fi = go kind (get e.ix fi.name)
  where
    go :
        (kind : ChangeKind) (r : Result (Option FileInfo))
        → Follows e
            (elim r [ err x ↦ none | ok current ↦ written e.node_id kind fi current ])
            (elim r [
              | err x ↦ (e, err x)
              | ok current ↦
                  let version = next_version e.node_id current in
                  elim kind [
                    | deleted ↦ stored (store e (tombstone fi.name (type_of current fi) version))
                    | added ↦ stored (store e (record fi { version = version }))
                    | modified ↦ stored (store e (record fi { version = version }))
                    | _ ↦ (e, err unhandled_kind)
                  ]
            ])
    go kind (err x) = (refl, refl)
    go deleted (ok current) = refl
    go added (ok current) = refl
    go modified (ok current) = refl
    go unchanged (ok current) = (refl, refl)
    go skipped (ok current) = (refl, refl)
    go renamed (ok current) = (refl, refl)
    go touched (ok current) = (refl, refl)

-- The kinds that are applied by a write of the entry.
abbrev pub is_written : ChangeKind → Bool
is_written skipped = false
is_written touched = false
is_written k = true

-- On a device that takes local changes, applying a change on its own writes exactly the entry that
-- `planChange` plans for a batch, and fails without a trace where there is no plan. Skipped and touched
-- changes are not planned.
pub apply_local_change-plan_change :
    (e : Engine) (kind : ChangeKind) (fi : FileInfo)
    → is_receive_only e.direction ≡ false
    → is_written kind ≡ true
    → Follows e (plan_change e kind fi) (apply_local_change e kind fi)
unfolding apply_local_change
apply_local_change-plan_change e unchanged fi active w =
    rw active (apply_other-Follows e unchanged fi)
apply_local_change-plan_change e added fi active w = rw active (apply_other-Follows e added fi)
apply_local_change-plan_change e modified fi active w =
    rw active (apply_other-Follows e modified fi)
apply_local_change-plan_change e deleted fi active w = rw active (apply_other-Follows e deleted fi)
apply_local_change-plan_change e renamed fi active w = rw active (apply_other-Follows e renamed fi)
apply_local_change-plan_change e skipped fi active w = cc
apply_local_change-plan_change e touched fi active w = cc

-- A rename that is planned is a tombstone and an entry, stored one after the other.
abbrev pub Agrees : Engine → Option (List FileInfo) → Engine × Result (Option FileInfo) → Type 0
Agrees e p r =
    ((p ≡ none) × Fails e r)
    ⊎ ((tomb : FileInfo) × (out : FileInfo) × (p ≡ some (tomb ∷ out ∷ []))
        × (r ≡ then_store out (store e tomb)))

checked :
    (e : Engine) (b : Bool) (x : Error) (p : Option (List FileInfo))
    (r : Engine × Result (Option FileInfo))
    → Agrees e p r
    → Agrees e (if b then none else p) (if b then (e, err x) else r)
checked e true x p r a = inl (refl, (refl, refl))
checked e false x p r a = a

rename_live-Agrees :
    (e : Engine) (old : FileInfo) (from_name : FileName) (to : FileInfo)
    → Agrees e (plan_target e old from_name to) (rename_live e old from_name to)
unfolding plan_target rename_live
rename_live-Agrees e old from_name to = go (get e.ix to.name)
  where
    version : Vector
    version = bump old.version e.node_id

    go :
        (r : Result (Option FileInfo))
        → Agrees e
            (elim r [
              | err x ↦ none
              | ok (some there) ↦ none
              | ok none ↦ some (tombstone from_name old.type version ∷ renamed_to to version ∷ [])
            ])
            (elim r [
              | err x ↦ (e, err x)
              | ok (some there) ↦ (e, err target_indexed)
              | ok none ↦
                  then_store
                    (renamed_to to version)
                    (store e (tombstone from_name old.type version))
            ])
    go (err x) = inl (refl, (refl, refl))
    go (ok (some there)) = inl (refl, (refl, refl))
    go (ok none) = inr (tombstone from_name old.type version, renamed_to to version, refl, refl)

-- On a device that takes local changes, applying a rename on its own stores exactly the two entries
-- that `planRename` plans for a batch, in the same order, and fails without a trace where there is
-- no plan.
pub apply_local_rename-plan_rename :
    (e : Engine) (from_name : FileName) (to : FileInfo)
    → is_receive_only e.direction ≡ false
    → Agrees e (plan_rename e from_name to) (apply_local_rename e from_name to)
unfolding plan_rename apply_local_rename
apply_local_rename-plan_rename e from_name to active =
    rw active (checked e (from_name == to.name) same_path _ _ (go (get e.ix from_name)))
  where
    go :
        (r : Result (Option FileInfo))
        → Agrees e
            (elim r [
              | err x ↦ none
              | ok none ↦ none
              | ok (some old) ↦
                  if old.deleted
                  then none
                  else if not (same_content old to)
                  then none
                  else plan_target e old from_name to
            ])
            (elim r [
              | err x ↦ (e, err x)
              | ok none ↦ (e, err source_gone)
              | ok (some old) ↦
                  if old.deleted
                  then (e, err source_gone)
                  else if not (same_content old to)
                  then (e, err content_differs)
                  else rename_live e old from_name to
            ])
    go (err x) = inl (refl, (refl, refl))
    go (ok none) = inl (refl, (refl, refl))
    go (ok (some old)) = checked e old.deleted source_gone _ _ (
        checked e (not (same_content old to)) content_differs _ _
          (rename_live-Agrees e old from_name to))
