-- ===== src/Client/Laws.antt =====
-- The documented behaviour of the outside code, as hypotheses that theorems name one by one, and
-- what they say of the writes that a method sends.
use percona_postgresql_opera.Prelude.{
  ℕ, ◌≡◌, subst, String, Bool, false, not, ◌&&◌, ◌||◌, List, [], ◌∷◌, none, some, ◌==◌,
  if◌then◌else◌,
}
use percona_postgresql_opera.Exec.{Err, Result, ok, err, api, ApiError, St, Exec}
use percona_postgresql_opera.Exec.Retry.{Retried, last, again}
use percona_postgresql_opera.Exec.Polled.{Polled, seen, failed, expired}
use percona_postgresql_opera.Exec.Writes.{Sends, Sends-send, Adds, Adds-trans, Adds-refl}
use percona_postgresql_opera.Types.Meta.{Lease, Condition}
use percona_postgresql_opera.Types.Write.{Write, put_lease, patch_backup, patch_restore}
use percona_postgresql_opera.Types.Backup.{PerconaPgBackup}
use percona_postgresql_opera.Types.Restore.{PerconaPgRestore}
use percona_postgresql_opera.Client.{Client, perform, patch, patch_of_restore}

-- The body runs again only after a conflict, and what its last run returns is returned.
pub record RetryLaw {W : Type 0} (c : Client W) : Type 0 where
  pub runs :
      (m : Exec W Write (Unit {0})) (s : St W Write)
      → Retried m s (c.retry_on_conflict m s).0 (c.retry_on_conflict m s).1

pub record PollLaw {W : Type 0} (c : Client W) : Type 0 where
  pub polls :
      (m : Exec W Write Bool) (s : St W Write)
      → Polled m s (c.poll_until m s).0 (c.poll_until m s).1

-- `CreateOrUpdate` runs the function on the object as read or on a new one, and sends what the
-- function made of it unless it failed or changed nothing. What is not found is created.
pub data Upserted {W : Type 0} (f : Lease → Exec W Write Lease) (s : St W Write)
    : Result (Unit {0}) → St W Write → Type 0 where
  unread : {w : W} {e : ApiError} → Upserted f s (err (api e)) (record s { world = w })
  refused :
      {w : W} {s' : St W Write} {e : Err} (l : Lease)
      → f l (record s { world = w }) ≡ (err e, s')
      → Upserted f s (err e) s'
  unchanged :
      {w : W} {s' : St W Write} (l l' : Lease)
      → f l (record s { world = w }) ≡ (ok l', s')
      → Upserted f s (ok tt) s'
  sent :
      {w w' : W} {s' : St W Write} {r : Result (Unit {0})} (l l' : Lease)
      → f l (record s { world = w }) ≡ (ok l', s')
      → Upserted f s r (record { world = w'; log = put_lease l l' ∷ s'.log })

pub record UpsertLaw {W : Type 0} (c : Client W) : Type 0 where
  pub upserts :
      (name : String) (f : Lease → Exec W Write Lease) (s : St W Write)
      → Upserted f s (c.create_or_update name f s).0 (c.create_or_update name f s).1

pub record FinalizerLaw {W : Type 0} (c : Client W) : Type 0 where
  pub contains-add :
      (fs : List String) (f g : String)
      → c.contains_finalizer (c.add_finalizer fs f).0 g ≡ ((f == g) || c.contains_finalizer fs g)
  pub contains-remove :
      (fs : List String) (f g : String)
      → c.contains_finalizer (c.remove_finalizer fs f).0 g
        ≡ (not (f == g) && c.contains_finalizer fs g)
  pub add_changes :
      (fs : List String) (f : String) → (c.add_finalizer fs f).1 ≡ not (c.contains_finalizer fs f)
  pub remove_changes :
      (fs : List String) (f : String) → (c.remove_finalizer fs f).1 ≡ c.contains_finalizer fs f

-- The two conditions say the same, times of transition aside.
pub record Says (x y : Condition) : Type 0 where
  pub status : x.status ≡ y.status
  pub reason : x.reason ≡ y.reason
  pub message : x.message ≡ y.message
  pub observed_generation : x.observed_generation ≡ y.observed_generation

-- `FindStatusCondition` returns the first condition of the type, `SetStatusCondition` adds or
-- updates the condition of the type and leaves those of other types as they are, and
-- `RemoveStatusCondition` removes those of the type.
pub record ConditionLaw {W : Type 0} (c : Client W) : Type 0 where
  pub find_empty : (k : String) → c.find_status_condition [] k ≡ none
  pub find_cons :
      (x : Condition) (xs : List Condition) (k : String)
      → c.find_status_condition (x ∷ xs) k
        ≡ (if x.kind == k then some x else c.find_status_condition xs k)
  pub find-set :
      (now : ℕ) (xs : List Condition) (x : Condition)
      → (y : Condition) × (c.find_status_condition (c.set_status_condition now xs x) x.kind
          ≡ some y)
        × Says y x
  pub find-set_other :
      (now : ℕ) (xs : List Condition) (x : Condition) (k : String)
      → (x.kind == k) ≡ false
      → c.find_status_condition (c.set_status_condition now xs x) k ≡ c.find_status_condition xs k
  pub find-remove :
      (xs : List Condition) (k j : String)
      → c.find_status_condition (c.remove_status_condition xs k) j
        ≡ (if k == j then none else c.find_status_condition xs j)

Retried-Adds :
    {W : Type 0} {P : Write → Type 0} {m : Exec W Write (Unit {0})} {s s' : St W Write}
    {r : Result (Unit {0})}
    → Sends P m
    → Retried m s r s'
    → Adds P s.log s'.log
Retried-Adds {P = P} k (last {s = s} e) = subst (λ p. Adds P s.log p.1.log) e (k.at s)
Retried-Adds {P = P} k (again {s = s} e rest) =
    Adds-trans (subst (λ p. Adds P s.log p.1.log) e (k.at s)) (Retried-Adds k rest)

Polled-Adds :
    {W : Type 0} {P : Write → Type 0} {m : Exec W Write Bool} {s s' : St W Write}
    {r : Result (Unit {0})}
    → Sends P m
    → Polled m s r s'
    → Adds P s.log s'.log
Polled-Adds {P = P} k (seen {s = s} e) = subst (λ p. Adds P s.log p.1.log) e (k.at s)
Polled-Adds {P = P} k (failed {s = s} e) = subst (λ p. Adds P s.log p.1.log) e (k.at s)
Polled-Adds {P = P} k (expired {s = s}) = Adds-refl s.log
Polled-Adds {P = P} k (Polled.again {s = s} e rest) =
    Adds-trans (subst (λ p. Adds P s.log p.1.log) e (k.at s)) (Polled-Adds k rest)

module _ {W : Type 0} (c : Client W) {P : Write → Type 0} where
  pub Sends-perform : (e : Write) → P e → Sends P (perform c e)
  unfolding perform
  Sends-perform e p = Sends-send e (c.write e) p

  pub Sends-patch :
      (old new : PerconaPgBackup) → P (patch_backup old new) → Sends P (patch c old new)
  unfolding patch
  Sends-patch old new p = Sends-send (patch_backup old new) (c.patched_backup old new) p

  pub Sends-patch_of_restore :
      (old new : PerconaPgRestore)
      → P (patch_restore old new)
      → Sends P (patch_of_restore c old new)
  unfolding patch_of_restore
  Sends-patch_of_restore old new p =
      Sends-send (patch_restore old new) (c.patched_restore old new) p

  pub Sends-retry :
      (m : Exec W Write (Unit {0})) → RetryLaw c → Sends P m → Sends P (c.retry_on_conflict m)
  Sends-retry m law k = record { at = λ s. Retried-Adds k (law.runs m s) }

  pub Sends-poll : (m : Exec W Write Bool) → PollLaw c → Sends P m → Sends P (c.poll_until m)
  Sends-poll m law k = record { at = λ s. Polled-Adds k (law.polls m s) }
