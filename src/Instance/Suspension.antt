-- ===== src/Instance/Suspension.antt =====
-- What waiting for a suspension or a resumption comes to.
use percona_postgresql_opera.Prelude.{
  ◌≡◌, subst, String, Bool, true, false, not, ◌&&◌, ltb, nat_eq, ◌<◌, arith, inl, inr, ◌⊎◌,
}
use percona_postgresql_opera.Exec.{ok, St, Exec, ◌>>◌, pure}
use percona_postgresql_opera.Exec.Inversion.{bind_ok, read_ok, pure_ok, if_cases}
use percona_postgresql_opera.Exec.Polled.{Polled, seen, again}
use percona_postgresql_opera.Types.Volume.{StatefulSet}
use percona_postgresql_opera.Types.Write.{Write}
use percona_postgresql_opera.Client.{Client}
use percona_postgresql_opera.Client.Laws.{PollLaw}
use percona_postgresql_opera.Instance.{
  is_marked, marked, unmarked, suspend_instance, unsuspend_instance, mark,
}

-- The stateful set is marked as suspended and has no pods.
pub record IsDown (sts : StatefulSet) : Type 0 where
  pub is_marked_down : is_marked sts ≡ true
  pub no_replicas : sts.replicas ≡ 0
  pub none_ready : sts.ready_replicas ≡ 0

-- The stateful set is not marked and has a ready pod.
pub record IsServing (sts : StatefulSet) : Type 0 where
  pub is_unmarked : is_marked sts ≡ false
  pub some_replicas : 0 < sts.replicas
  pub some_ready : 0 < sts.ready_replicas

-- The last look of a poll that ended well.
pub Polled-look :
    {W E : Type 0} {m : Exec W E Bool} {s s' : St W E} {u : Unit {0}}
    → Polled m s (ok u) s'
    → (s₁ : St W E) × (m s₁ ≡ (ok true, s'))
Polled-look (seen {s = s} e) = (s, e)
Polled-look (again e rest) = Polled-look rest

module _ {W : Type 0} (c : Client W) (name : String) where
  -- The world in which the answer was given leads to `w'`.
  abbrev pub Answers : (StatefulSet → Type 0) → W → Type 0
  Answers P w' = (w : W) × (sts : StatefulSet) × (c.get_stateful_set name w ≡ (ok sts, w')) × P sts

  suspend_instance-IsDown :
      (s s' : St W Write) → suspend_instance c name s ≡ (ok true, s') → Answers IsDown s'.world
  unfolding suspend_instance
  suspend_instance-IsDown s s' e =
      let (sts, s₁, looked, rest) = bind_ok _ _ s s' true e in
      decide sts s₁ (read_ok _ s s₁ sts looked) (if_cases (is_marked sts) _ _ s₁ _ rest)
    where
      decide :
          (sts : StatefulSet) (s₁ : St W Write)
          → c.get_stateful_set name s.world ≡ (ok sts, s₁.world)
          → ((is_marked sts ≡ true)
              × (pure (nat_eq sts.replicas 0 && nat_eq sts.ready_replicas 0) s₁ ≡ (ok true, s')))
            ⊎ ((is_marked sts ≡ false) × ((mark c name marked >> pure false) s₁ ≡ (ok true, s')))
          → Answers IsDown s'.world
      decide sts s₁ looked (inl (h, e)) =
          let (down, same) = pure_ok _ true s₁ s' e in
          (
            s.world,
            sts,
            rw (← same) looked,
            record {
              is_marked_down = h;
              no_replicas = ground (arith, down);
              none_ready = ground (arith, down);
            },
          )
      decide sts s₁ looked (inr (h, e)) =
          let (u, s₂, _, rest) = bind_ok _ _ s₁ s' true e in
          absurd (ground (arith, (pure_ok false true s₂ s' rest).0))

  unsuspend_instance-IsServing :
      (s s' : St W Write) → unsuspend_instance c name s ≡ (ok true, s') → Answers IsServing s'.world
  unfolding unsuspend_instance
  unsuspend_instance-IsServing s s' e =
      let (sts, s₁, looked, rest) = bind_ok _ _ s s' true e in
      decide sts s₁ (read_ok _ s s₁ sts looked) (if_cases (not (is_marked sts)) _ _ s₁ _ rest)
    where
      decide :
          (sts : StatefulSet) (s₁ : St W Write)
          → c.get_stateful_set name s.world ≡ (ok sts, s₁.world)
          → ((not (is_marked sts) ≡ true)
              × (pure (ltb 0 sts.replicas && ltb 0 sts.ready_replicas) s₁ ≡ (ok true, s')))
            ⊎ ((not (is_marked sts) ≡ false)
                × ((mark c name unmarked >> pure false) s₁ ≡ (ok true, s')))
          → Answers IsServing s'.world
      decide sts s₁ looked (inl (h, e)) =
          let (up, same) = pure_ok _ true s₁ s' e in
          (
            s.world,
            sts,
            rw (← same) looked,
            record {
              is_unmarked = ground (arith, h);
              some_replicas = ground (arith, up);
              some_ready = ground (arith, up);
            },
          )
      decide sts s₁ looked (inr (h, e)) =
          let (u, s₂, _, rest) = bind_ok _ _ s₁ s' true e in
          absurd (ground (arith, (pure_ok false true s₂ s' rest).0))

  module _ (law : PollLaw c) where
    poll_look :
        (m : Exec W Write Bool) (s s' : St W Write)
        → c.poll_until m s ≡ (ok tt, s')
        → (s₁ : St W Write) × (m s₁ ≡ (ok true, s'))
    poll_look m s s' e = Polled-look (subst (λ p. Polled m s p.0 p.1) e (law.polls m s))

    pub suspended_wait :
        (s s' : St W Write)
        → c.poll_until (suspend_instance c name) s ≡ (ok tt, s')
        → Answers IsDown s'.world
    suspended_wait s s' e =
        let (s₁, looked) = poll_look _ s s' e in suspend_instance-IsDown s₁ s' looked

    pub resumed_wait :
        (s s' : St W Write)
        → c.poll_until (unsuspend_instance c name) s ≡ (ok tt, s')
        → Answers IsServing s'.world
    resumed_wait s s' e =
        let (s₁, looked) = poll_look _ s s' e in unsuspend_instance-IsServing s₁ s' looked
