-- ===== src/Exec/Polled.antt =====
-- `wait.PollUntilContextTimeout` of apimachinery, to look at once, is a parameter. Its documented
-- contract: it looks until it sees what it waits for, a look fails or the time is over. Between two
-- looks the world goes on.
use percona_postgresql_opera.Prelude.{◌≡◌, Bool, true, false}
use percona_postgresql_opera.Exec.{Err, Result, ok, err, timed_out, St, Exec}

pub data Polled {W E : Type 0} (m : Exec W E Bool)
    : St W E → Result (Unit {0}) → St W E → Type 0 where
  seen : {s s' : St W E} → m s ≡ (ok true, s') → Polled m s (ok tt) s'
  failed : {s s' : St W E} {e : Err} → m s ≡ (err e, s') → Polled m s (err e) s'
  expired : {s : St W E} {w : W} → Polled m s (err timed_out) (record s { world = w })
  again :
      {s s₁ s' : St W E} {w : W} {r : Result (Unit {0})}
      → m s ≡ (ok false, s₁)
      → Polled m (record s₁ { world = w }) r s'
      → Polled m s r s'
