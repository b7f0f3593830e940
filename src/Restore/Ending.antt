-- ===== src/Restore/Ending.antt =====
-- How a restore ends: the request to restore is withdrawn from the cluster before the restore is
-- given its final state.
use percona_postgresql_opera.Prelude.{
  ℕ, zero, ◌≡◌, refl, subst, Bool, true, false, Option, none, some, List, ◌∷◌, if◌then◌else◌,
  lookup, lookup-delete,
}
use percona_postgresql_opera.Exec.{Result, ok, err, St, pure, send, lift, ◌>>=◌, on_option, read}
use percona_postgresql_opera.Types.Meta.{pgbackrest_restore}
use percona_postgresql_opera.Types.Cluster.{
  PgBackRestRestore, PerconaPgCluster, PgBackRestJobStatus,
}
use percona_postgresql_opera.Types.Restore.{
  PgRestoreState, restore_new, restore_starting, restore_running, restore_failed, restore_succeeded,
  PerconaPgRestore, is_completed,
}
use percona_postgresql_opera.Types.Write.{Write, update_restore_status, patch_cluster}
use percona_postgresql_opera.Client.{Client, perform}
use percona_postgresql_opera.Restore.PgBackRest.{
  restore_of, without_request, switched_off, disable_restore, observe_status, restore_state,
}
use percona_postgresql_opera.Restore.Reconcile.{
  in_restore_state, is_bootstrap, set_restore_state, follow_restore, reconcile_running_restore,
}

-- The cluster does not ask for a restore.
pub record IsWithdrawn (cr : PerconaPgCluster) : Type 0 where
  pub section :
      (r : PgBackRestRestore) × (cr.backups.pgbackrest.restore ≡ some r) × (r.enabled ≡ some false)
  pub unannotated : lookup cr.meta.annotations pgbackrest_restore ≡ none

-- What a reconciliation of a running restore may add to the log.
pub data Ends (pg : PerconaPgCluster) (before : List Write) : List Write → Type 0 where
  idle : Ends pg before before
  withdrawn :
      {cr : PerconaPgCluster} → IsWithdrawn cr → Ends pg before (patch_cluster pg cr ∷ before)
  ended :
      {cr : PerconaPgCluster} {old new : PerconaPgRestore}
      → IsWithdrawn cr
      → is_completed new.status.state ≡ true
      → Ends pg before (update_restore_status old new ∷ patch_cluster pg cr ∷ before)

pub without_request-IsWithdrawn : (cr : PerconaPgCluster) → IsWithdrawn (without_request cr)
unfolding without_request
without_request-IsWithdrawn cr = record {
  section = (switched_off cr.backups.pgbackrest.restore, refl, off cr.backups.pgbackrest.restore);
  unannotated = simp lookup-delete;
}
  where
    off : (o : Option PgBackRestRestore) → (switched_off o).enabled ≡ some false
    off none = refl
    off (some r) = refl

module _ {W : Type 0} (c : Client W) (pg : PerconaPgCluster) where
  set_restore_state_log :
      (x : PgRestoreState) (pr : PerconaPgRestore) (s : St W Write)
      → (set_restore_state c x pr s).1.log
        ≡ update_restore_status pr (in_restore_state x pr) ∷ s.log
  unfolding set_restore_state perform send ◌>>=◌ pure
  set_restore_state_log x pr s = kept (c.write _ s.world).0 _
    where
      kept :
          (r : Result (Unit {0})) (s' : St W Write)
          → ((lift r >>= λ _. pure zero) s').1.log ≡ s'.log
      kept (ok a) s' = refl
      kept (err a) s' = refl

  -- The final state is written after the answer to the patch.
  answered :
      (x : PgRestoreState) (pr : PerconaPgRestore) (r : Result (Unit {0})) (before : List Write)
      (s : St W Write)
      → is_completed x ≡ true
      → s.log ≡ patch_cluster pg (without_request pg) ∷ before
      → Ends pg before ((lift r >>= λ _. set_restore_state c x pr) s).1.log
  unfolding ◌>>=◌
  answered x pr (ok a) before s done e =
      rw (set_restore_state_log x pr s, e) (ended (without_request-IsWithdrawn pg) done)
  answered x pr (err a) before s done e = rw e (withdrawn (without_request-IsWithdrawn pg))

  in_turn :
      (bootstrap completed : Bool) (x : PgRestoreState) (pr : PerconaPgRestore) (s : St W Write)
      → bootstrap ≡ false
      → completed ≡ false
      → is_completed x ≡ true
      → Ends pg s.log
          (((if bootstrap
                then pure tt
                else if completed
                then pure tt
                else perform c (patch_cluster pg (without_request pg)))
              >>= λ _. set_restore_state c x pr)
            s).1.log
  unfolding ◌>>=◌ perform send
  in_turn false false x pr s b e done = answered x pr _ s.log _ done refl
  in_turn true _ x pr s b e done = absurd (cc b)
  in_turn false true x pr s b e done = absurd (cc e)

  followed :
      (x : PgRestoreState) (t : Option ℕ) (pr : PerconaPgRestore) (s : St W Write)
      → is_bootstrap pr ≡ false
      → is_completed pr.status.state ≡ false
      → Ends pg s.log (follow_restore c x t pg pr s).1.log
  unfolding follow_restore disable_restore pure
  followed restore_new t pr s b e = idle
  followed restore_starting t pr s b e = idle
  followed restore_running t pr s b e = idle
  followed restore_failed t pr s b e = in_turn _ _ restore_failed pr s b e refl
  followed restore_succeeded t pr s b e = in_turn _ _ restore_succeeded _ s b e refl

  observed :
      (r : Result (PgRestoreState × Option ℕ)) (pr : PerconaPgRestore) (s : St W Write)
      → is_bootstrap pr ≡ false
      → is_completed pr.status.state ≡ false
      → Ends pg s.log ((lift r >>= λ (x, t). follow_restore c x t pg pr) s).1.log
  unfolding ◌>>=◌
  observed (ok (x, t)) pr s b e = followed x t pr s b e
  observed (err a) pr s b e = idle

  observe_status_log : (s : St W Write) → (observe_status c pg s).1.log ≡ s.log
  unfolding observe_status read pure on_option ◌>>=◌
  observe_status_log s = got (c.get_cluster pg.meta.name s.world).0 _
    where
      found :
          (o : Option PgBackRestJobStatus) (s' : St W Write)
          → (on_option o (pure (restore_starting, none)) (λ j. pure (restore_state j)) s').1.log
            ≡ s'.log
      found none s' = refl
      found (some j) s' = refl

      got :
          (r : Result PerconaPgCluster) (s' : St W Write)
          → ((lift r >>= λ cr.
                on_option
                  (restore_of cr.status.pgbackrest)
                  (pure (restore_starting, none))
                  (λ j. pure (restore_state j)))
              s').1.log
            ≡ s'.log
      got (ok cr) s' = found _ s'
      got (err x) s' = refl

  -- While a restore runs that does not bootstrap its cluster, a reconciliation writes nothing, or
  -- takes the request to restore off the cluster and may then, after that and as its last write,
  -- give the restore its final state. So a restore is never marked as ended while its cluster was
  -- not told to stop asking for it, whatever fails.
  pub reconcile_running_restore-Ends :
      (pr : PerconaPgRestore) (s : St W Write)
      → is_bootstrap pr ≡ false
      → is_completed pr.status.state ≡ false
      → Ends pg s.log (reconcile_running_restore c pg pr s).1.log
  unfolding reconcile_running_restore ◌>>=◌
  reconcile_running_restore-Ends pr s b e =
      subst (λ l. Ends pg l (reconcile_running_restore c pg pr s).1.log) (observe_status_log s)
        (observed (observe_status c pg s).0 pr (observe_status c pg s).1 b e)
