-- ===== src/Exec/Retry.antt =====
-- `retry.RetryOnConflict` of client-go is a parameter. Its documented contract: the body runs
-- again only after a conflict, and what the last run returns is returned.
use percona_postgresql_opera.Prelude.{◌≡◌}
use percona_postgresql_opera.Exec.{Result, err, api, conflict, St, Exec}

pub data Retried {W E : Type 0} (m : Exec W E (Unit {0}))
    : St W E → Result (Unit {0}) → St W E → Type 0 where
  last : {s s' : St W E} {r : Result (Unit {0})} → m s ≡ (r, s') → Retried m s r s'
  again :
      {s s₁ s' : St W E} {r : Result (Unit {0})}
      → m s ≡ (err (api conflict), s₁)
      → Retried m s₁ r s'
      → Retried m s r s'
