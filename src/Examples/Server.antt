-- ===== src/Examples/Server.antt =====
-- A small server at which the hypotheses about outside code hold: it answers every request with
-- the same object, runs a retried body once, and creates every lease anew.
use percona_postgresql_opera.Prelude.{
  ◌≡◌, refl, String, Bool, true, false, ◌||◌, ◌==◌, if◌then◌else◌, List, [], ◌∷◌, Option, none,
  some, eq_iff, arith, Bool-cases, inl, inr,
}
use percona_postgresql_opera.Exec.{Result, ok, err, api, not_found, timed_out, St, Exec}
use percona_postgresql_opera.Exec.Retry.{last}
use percona_postgresql_opera.Exec.Polled.{Polled, seen, failed, expired, again}
use percona_postgresql_opera.Types.Meta.{Condition, Lease}
use percona_postgresql_opera.Types.Write.{Write, put_lease}
use percona_postgresql_opera.Client.{Client}
use percona_postgresql_opera.Client.Laws.{
  RetryLaw, PollLaw, Upserted, refused, sent, UpsertLaw, Says, ConditionLaw,
}
use percona_postgresql_opera.Cluster.Standby.Signalled.{has_status}
use percona_postgresql_opera.Examples.Objects.{
  cluster1, crunchy1, backup1, restore1, job1, lease1, instance1,
}

abbrev pub present : List String → String → Bool
present [] f = false
present (g ∷ gs) f = (g == f) || present gs f

abbrev pub without : List String → String → List String
without [] f = []
without (g ∷ gs) f = let rest = without gs f in if g == f then rest else g ∷ rest

abbrev pub find_condition : List Condition → String → Option Condition
find_condition [] t = none
find_condition (x ∷ xs) t = if x.kind == t then some x else find_condition xs t

abbrev pub set_condition : List Condition → Condition → List Condition
set_condition [] x = x ∷ []
set_condition (y ∷ ys) x = if y.kind == x.kind then x ∷ ys else y ∷ set_condition ys x

abbrev pub remove_condition : List Condition → String → List Condition
remove_condition [] t = []
remove_condition (y ∷ ys) t =
    let rest = remove_condition ys t in if y.kind == t then rest else y ∷ rest

abbrev created : Result Lease → St Unit Write → Result (Unit {0}) × St Unit Write
created (ok l) s = (ok tt, record { world = tt; log = put_lease lease1 l ∷ s.log })
created (err e) s = (err e, s)

-- One look, which either sees what it waits for or runs into the timeout.
abbrev polled : Result Bool → St Unit Write → Result (Unit {0}) × St Unit Write
polled (ok true) s = (ok tt, s)
polled (ok false) s = (err timed_out, s)
polled (err e) s = (err e, s)

abbrev pub poll_once : Exec Unit Write Bool → Exec Unit Write (Unit {0})
poll_once m s = let (r, s') = m s in polled r s'

pub poll_once-Polled :
    (m : Exec Unit Write Bool) (s : St Unit Write) → Polled m s (poll_once m s).0 (poll_once m s).1
poll_once-Polled m s = case (m s).0 (m s).1 refl
  where
    case :
        (r : Result Bool) (s' : St Unit Write)
        → m s ≡ (r, s')
        → Polled m s (polled r s').0 (polled r s').1
    case (ok true) s' e = seen e
    case (ok false) s' e = again e (expired {s = s'} {w = s'.world})
    case (err x) s' e = failed e

abbrev pub server : Client Unit
server = record {
  get_backup = λ name w. (ok backup1, w);
  get_restore = λ name w. (ok restore1, w);
  get_cluster = λ name w. (ok cluster1, w);
  get_crunchy = λ name w. (ok crunchy1, w);
  get_job = λ name w. (ok job1, w);
  get_ingress = λ name w. (ok [], w);
  get_lease = λ name w. (ok lease1, w);
  list_backups = λ name w. (ok (backup1 ∷ []), w);
  list_jobs = λ labels w. (ok [], w);
  list_pods = λ name w. (ok [], w);
  list_replica_pods = λ name w. (ok [], w);
  list_stateful_sets = λ name w. (ok [], w);
  list_pvcs = λ instance role w. (ok [], w);
  list_restores = λ w. (ok (restore1 ∷ []), w);
  get_stateful_set = λ name w. (ok instance1, w);
  get_pvc = λ name w. (err (api not_found), w);
  get_snapshot = λ name w. (err (api not_found), w);
  get_leader_endpoints = λ name w. (ok false, w);
  write = λ e w. (ok tt, w);
  patched_backup = λ old new w. (ok new, w);
  patched_restore = λ old new w. (ok new, w);
  retry_on_conflict = λ m. m;
  create_or_update = λ name f s. let (r, s') = f lease1 s in created r s';
  poll_until = poll_once;
  run_checkpoint = λ pod seconds w. (ok "", w);
  set_controller_reference = λ owner name. ok tt;
  map_entries = λ m w. (m, w);
  snapshot_errors_text = λ w. ("failed", w);
  now_text = λ w. ("1970-01-01T00:16:40Z", w);
  backup_snapshots_enabled = true;
  now = λ w. (1000, w);
  map_order = λ w. (true, w);
  get_info = λ pod repo w. (ok [], w);
  latest_commit = λ cluster backup w. (ok 900, w);
  contains_finalizer = present;
  add_finalizer = λ fs f. if present fs f then (fs, false) else (f ∷ fs, true);
  remove_finalizer = λ fs f. (without fs f, present fs f);
  find_status_condition = find_condition;
  is_status_condition_present_and_equal = λ xs t s. has_status (find_condition xs t) s;
  set_status_condition = λ now xs x. set_condition xs x;
  remove_status_condition = remove_condition;
}

pub server-RetryLaw : RetryLaw server
server-RetryLaw = record { runs = λ m s. last refl }

pub server-PollLaw : PollLaw server
server-PollLaw = record { polls = poll_once-Polled }

pub server-UpsertLaw : UpsertLaw server
server-UpsertLaw = record { upserts = λ name f s. case f s (f lease1 s).0 (f lease1 s).1 refl }
  where
    case :
        (f : Lease → Exec Unit Write Lease) (s : St Unit Write) (r : Result Lease)
        (s' : St Unit Write)
        → f lease1 s ≡ (r, s')
        → Upserted f s (created r s').0 (created r s').1
    case f s (ok l) s' e = sent {w = s.world} {w' = tt} lease1 l e
    case f s (err x) s' e = refused {w = s.world} lease1 e

found_set :
    (xs : List Condition) (x : Condition)
    → (y : Condition) × (find_condition (set_condition xs x) x.kind ≡ some y) × Says y x
found_set [] x = (
  x,
  ground (arith, eq_iff x.kind x.kind),
  record { status = refl; reason = refl; message = refl; observed_generation = refl },
)
found_set (z ∷ xs) x = elim (Bool-cases (z.kind == x.kind)) [
  | inl same ↦ (
    x,
    rw same (ground (arith, eq_iff x.kind x.kind)),
    record { status = refl; reason = refl; message = refl; observed_generation = refl },
  )
  | inr differs ↦
      let (y, e, says) = found_set xs x in (y, rw differs (ground (arith, e, differs)), says)
]

set_other :
    (xs : List Condition) (x : Condition) (k : String)
    → (x.kind == k) ≡ false
    → find_condition (set_condition xs x) k ≡ find_condition xs k
set_other [] x k h = ground (arith, h)
set_other (z ∷ xs) x k h =
    let rest = set_other xs x k h in
    ground (arith, h, rest, eq_iff z.kind x.kind, eq_iff z.kind k, eq_iff x.kind k)

removed :
    (xs : List Condition) (k j : String)
    → find_condition (remove_condition xs k) j ≡ (if k == j then none else find_condition xs j)
removed [] k j = ground arith
removed (z ∷ xs) k j = ground (arith, removed xs k j, eq_iff z.kind k, eq_iff z.kind j, eq_iff k j)

pub server-ConditionLaw : ConditionLaw server
server-ConditionLaw = record {
  find_empty = λ k. refl;
  find_cons = λ x xs k. refl;
  find-set = λ now xs x. found_set xs x;
  find-set_other = λ now xs x k h. set_other xs x k h;
  find-remove = λ xs k j. removed xs k j;
}
