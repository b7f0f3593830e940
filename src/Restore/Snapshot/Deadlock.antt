-- ===== src/Restore/Snapshot/Deadlock.antt =====
-- Two new restores from volume snapshots that wait for each other.
use percona_postgresql_opera.Prelude.{
  ◌≡◌, refl, ap, sym, ◌∙◌, ◌≢◌, Bool, true, false, if◌then◌else◌, List, [], ◌∷◌,
}
use percona_postgresql_opera.Exec.{ok, St}
use percona_postgresql_opera.Types.Cluster.{PerconaPgCluster}
use percona_postgresql_opera.Types.Restore.{restore_new, PerconaPgRestore, is_completed}
use percona_postgresql_opera.Types.Write.{Write}
use percona_postgresql_opera.Client.{Client}
use percona_postgresql_opera.Restore.Snapshot.{reconcile_new_from_snapshot}
use percona_postgresql_opera.Restore.Snapshot.Waiting.{reconcile_new_from_snapshot_waits}
use mathlib.Core.List.{Memᴰ}

module _ {W : Type 0} (c : Client W) (pg : PerconaPgCluster) where
  -- The reconciliations of two restores one after the other, as the schedule orders them: `true` is
  -- for the first. What one returns, an error included, does not keep the next from running.
  unfoldable pub run_pair :
      PerconaPgRestore → PerconaPgRestore → List Bool → St W Write → St W Write
  run_pair a b [] s = s
  run_pair a b (turn ∷ turns) s =
      run_pair a b turns (reconcile_new_from_snapshot c pg (if turn then a else b) s).1

  -- The server lists both restores as long as nothing more has been written.
  abbrev pub ListsBoth : PerconaPgRestore → PerconaPgRestore → St W Write → Type 0
  ListsBoth a b s =
      (t : St W Write)
      → t.log ≡ s.log
      → (rs : List PerconaPgRestore) × (w : W) × (c.list_restores t.world ≡ (ok rs, w))
        × Memᴰ a rs
        × Memᴰ b rs

  -- Two new restores of one cluster from snapshots, of different names, wait for each other for
  -- ever: however many reconciliations of the two run, in whatever order, nothing is written. The
  -- server lists both as they are as long as nothing has been written.
  pub new_restores_deadlock :
      (a b : PerconaPgRestore) (s : St W Write)
      → (a.spec.pg_cluster ≡ pg.meta.name) × (b.spec.pg_cluster ≡ pg.meta.name)
      → (a.status.state ≡ restore_new) × (b.status.state ≡ restore_new)
      → a.meta.name ≢ b.meta.name
      → ListsBoth a b s
      → (turns : List Bool) → (run_pair a b turns s).log ≡ s.log
  unfolding run_pair
  new_restores_deadlock a b s (ca, cb) (na, nb) differ lists turns = go turns s refl
    where
      one_turn :
          (turn : Bool) (t : St W Write)
          → t.log ≡ s.log
          → (reconcile_new_from_snapshot c pg (if turn then a else b) t).1.log ≡ t.log
      one_turn true t same =
          let (rs, w, answer, ma, mb) = lists t same in
          (reconcile_new_from_snapshot_waits c pg a b rs t w answer mb (record {
            of_cluster = cb;
            unended = ap is_completed nb;
            renamed = λ e. differ (sym e);
          })).1
      one_turn false t same =
          let (rs, w, answer, ma, mb) = lists t same in
          (reconcile_new_from_snapshot_waits c pg b a rs t w answer ma
            (record { of_cluster = ca; unended = ap is_completed na; renamed = differ })).1

      go : (turns : List Bool) (t : St W Write) → t.log ≡ s.log → (run_pair a b turns t).log ≡ s.log
      go [] t same = same
      go (turn ∷ turns) t same = go turns _ (one_turn turn t same ∙ same)
