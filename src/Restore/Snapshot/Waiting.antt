-- ===== src/Restore/Snapshot/Waiting.antt =====
-- What a restore from volume snapshots waits for: other restores of the cluster, and instances that
-- are still up.
use percona_postgresql_opera.Prelude.{
  ◌≡◌, refl, ap, sym, ◌∙◌, subst, ◌≢◌, inl, inr, String, Bool, true, false, ◌&&◌, eq_iff, nat_eq,
  if◌then◌else◌, Bool-cases, arith, List, [], ◌∷◌,
}
use percona_postgresql_opera.Exec.{ok, St, pure, read, ◌>>=◌}
use percona_postgresql_opera.Exec.Writes.{Sends, Sends-weaken, Sends-pure}
use percona_postgresql_opera.Exec.Yields.{
  Yields, Yields-pure, Yields-bind, Yields-bind_of, Yields-read, Yields-if, Sends-bind_of,
}
use percona_postgresql_opera.Types.Cluster.{PerconaPgCluster}
use percona_postgresql_opera.Types.Restore.{restore_succeeded, PerconaPgRestore, is_completed}
use percona_postgresql_opera.Types.Volume.{StatefulSet}
use percona_postgresql_opera.Types.Write.{Write, update_restore_status}
use percona_postgresql_opera.Client.{Client}
use percona_postgresql_opera.Client.Laws.{RetryLaw}
use percona_postgresql_opera.Instance.{is_marked, suspend_instance}
use percona_postgresql_opera.Instance.Suspension.{IsDown}
use percona_postgresql_opera.Restore.Snapshot.{
  is_restoring, is_other_restore, has_other_restore, reconcile_new_from_snapshot,
  reconcile_starting_from_snapshot,
}
use percona_postgresql_opera.Restore.Snapshot.Instances.{suspend_all, suspend_all_instances}
use percona_postgresql_opera.Restore.Snapshot.Allowed.{Allowed, suspend_all_instances-Allowed}
use mathlib.Core.List.{Memᴰ}

has_other_restore-Memᴰ :
    (pg : PerconaPgCluster) (pr r : PerconaPgRestore) (rs : List PerconaPgRestore)
    → Memᴰ r rs
    → is_other_restore pg pr r ≡ true
    → has_other_restore pg pr rs ≡ true
unfolding has_other_restore
has_other_restore-Memᴰ pg pr r [] m other = elim m [ ]
has_other_restore-Memᴰ pg pr r (x ∷ rs) (Memᴰ.head e) other =
    ground (arith, sym (ap (is_other_restore pg pr) e) ∙ other)
has_other_restore-Memᴰ pg pr r (x ∷ rs) (Memᴰ.tail m) other =
    ground (arith, has_other_restore-Memᴰ pg pr r rs m other)

-- Another restore of the cluster that has not ended.
pub record IsRival (pg : PerconaPgCluster) (pr other : PerconaPgRestore) : Type 0 where
  pub of_cluster : other.spec.pg_cluster ≡ pg.meta.name
  pub unended : is_completed other.status.state ≡ false
  pub renamed : other.meta.name ≢ pr.meta.name

IsRival-other :
    (pg : PerconaPgCluster) (pr other : PerconaPgRestore)
    → IsRival pg pr other
    → is_other_restore pg pr other ≡ true
unfolding is_other_restore
IsRival-other pg pr other rival = ground (
  arith,
  rival.of_cluster,
  rival.unended,
  rival.renamed,
  eq_iff other.spec.pg_cluster pg.meta.name,
  eq_iff other.meta.name pr.meta.name,
)

-- The state differs from the other in the world alone.
abbrev pub SameLog : {W : Type 0} → St W Write → St W Write → Type 0
SameLog s s' = s'.log ≡ s.log

module _ {W : Type 0} (c : Client W) (pg : PerconaPgCluster) where
  -- A new restore from a snapshot waits, and writes nothing, while the list of restores that the
  -- server answers holds another restore of the cluster that has not ended.
  pub reconcile_new_from_snapshot_waits :
      (pr other : PerconaPgRestore) (rs : List PerconaPgRestore) (s : St W Write) (w : W)
      → c.list_restores s.world ≡ (ok rs, w)
      → Memᴰ other rs
      → IsRival pg pr other
      → ((reconcile_new_from_snapshot c pg pr s).0 ≡ ok 5)
        × ((reconcile_new_from_snapshot c pg pr s).1.log ≡ s.log)
  unfolding reconcile_new_from_snapshot ◌>>=◌ read pure
  reconcile_new_from_snapshot_waits pr other rs s w answer m rival =
      elim (Bool-cases (is_restoring pg.backups.pgbackrest.restore)) [
        | inl h ↦ rw h (refl, refl)
        | inr h ↦
            simp
              (h, answer, has_other_restore-Memᴰ pg pr other rs m (IsRival-other pg pr other rival))
              (refl, refl)
      ]

abbrev IsFalse : Bool → Type 0
IsFalse b = b ≡ false

-- The write is not one of a restore's status.
abbrev pub NoStatus : Write → Type 0
NoStatus (update_restore_status old new) = ⊥
NoStatus _ = Unit

NoStatus-of : (own : PerconaPgRestore) (e : Write) → Allowed own restore_succeeded e → NoStatus e
NoStatus-of own (update_restore_status old new) h = elim h [ ]
NoStatus-of own _ h = tt

module _ {W : Type 0} (c : Client W) where
  -- The server never answers that the stateful set of that name is down.
  abbrev pub NeverDown : String → Type 0
  NeverDown name =
      (w w' : W) (sts : StatefulSet) → c.get_stateful_set name w ≡ (ok sts, w') → IsDown sts → ⊥

  suspend_instance-IsFalse :
      (name : String) → NeverDown name → Yields IsFalse (suspend_instance c name)
  unfolding suspend_instance
  suspend_instance-IsFalse name up =
      Yields-bind_of _ _ (Yields-read (c.get_stateful_set name)) λ sts (w, w', e).
        Yields-if (is_marked sts) _ _
          (λ h.
            Yields-pure _
              (elim (Bool-cases (nat_eq sts.replicas 0 && nat_eq sts.ready_replicas 0)) [
                | inl down ↦ absurd (
                    up w w' sts e (record {
                      is_marked_down = h;
                      no_replicas = ground (arith, down);
                      none_ready = ground (arith, down);
                    }))
                | inr some_up ↦ some_up
              ]))
          λ h. Yields-bind _ _ λ _. Yields-pure false refl

  suspend_all-IsFalse : (xs : List StatefulSet) → Yields IsFalse (suspend_all c xs false)
  unfolding suspend_all
  suspend_all-IsFalse [] = Yields-pure false refl
  suspend_all-IsFalse (x ∷ xs) = Yields-bind _ _ λ b.
      elim b as (λ k. Yields IsFalse (suspend_all c xs (if k then false else false))) [
        | true ↦ suspend_all-IsFalse xs
        | false ↦ suspend_all-IsFalse xs
      ]

  suspend_all-IsFalse_of :
      (xs : List StatefulSet) (done : Bool) (i : StatefulSet)
      → Memᴰ i xs
      → NeverDown i.meta.name
      → Yields IsFalse (suspend_all c xs done)
  unfolding suspend_all
  suspend_all-IsFalse_of [] done i m up = elim m [ ]
  suspend_all-IsFalse_of (x ∷ xs) done i (Memᴰ.head e) up =
      Yields-bind_of _ _
        (suspend_instance-IsFalse x.meta.name (subst (λ z. NeverDown z.meta.name) e up))
        λ b h. rw h (suspend_all-IsFalse xs)
  suspend_all-IsFalse_of (x ∷ xs) done i (Memᴰ.tail m) up =
      Yields-bind _ _ λ b. suspend_all-IsFalse_of xs _ i m up

  suspend_all_instances-IsFalse :
      (pg : PerconaPgCluster) (i : StatefulSet)
      → ((w w' : W) (xs : List StatefulSet)
          → c.list_stateful_sets pg.meta.name w ≡ (ok xs, w')
          → Memᴰ i xs)
      → NeverDown i.meta.name
      → Yields IsFalse (suspend_all_instances c pg)
  unfolding suspend_all_instances
  suspend_all_instances-IsFalse pg i lists up =
      Yields-bind_of _ _ (Yields-read (c.list_stateful_sets pg.meta.name))
        λ xs (w, w', e). suspend_all-IsFalse_of xs true i (lists w w' xs e) up

  -- As long as the server lists an instance of the cluster that it does not report as down, a
  -- reconciliation of a starting restore writes no status, so the restore does not begin to replace
  -- volumes. RetryOnConflict is assumed to behave as documented.
  pub reconcile_starting_from_snapshot-NoStatus :
      (retry : RetryLaw c) (pg : PerconaPgCluster) (pr : PerconaPgRestore) (i : StatefulSet)
      → ((w w' : W) (xs : List StatefulSet)
          → c.list_stateful_sets pg.meta.name w ≡ (ok xs, w')
          → Memᴰ i xs)
      → NeverDown i.meta.name
      → Sends NoStatus (reconcile_starting_from_snapshot c pg pr)
  unfolding reconcile_starting_from_snapshot
  reconcile_starting_from_snapshot-NoStatus retry pg pr i lists up =
      Sends-bind_of _ _
        (Sends-weaken _ (NoStatus-of pr)
          (suspend_all_instances-Allowed c retry pr restore_succeeded pg))
        (suspend_all_instances-IsFalse pg i lists up) λ b h. rw h (Sends-pure 5)
