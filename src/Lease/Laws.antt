-- ===== src/Lease/Laws.antt =====
-- Who may take a lease over, and what releasing one deletes.
use percona_postgresql_opera.Prelude.{
  ◌≡◌, refl, ◌⊎◌, inl, inr, String, Bool, true, Option, none, some, ◌==◌, arith, eq_iff, Bool-cases,
  subst,
}
use percona_postgresql_opera.Exec.{Result, ok, St, Exec, pure, raise, ask, ◌>>=◌}
use percona_postgresql_opera.Exec.Writes.{
  Sends, Sends-if, Sends-pure, sends_rules, Adds, Adds-refl, Adds-one, Adds-trans,
}
use percona_postgresql_opera.Types.Meta.{Lease}
use percona_postgresql_opera.Types.Write.{Write, put_lease, delete_lease}
use percona_postgresql_opera.Client.{Client, perform}
use percona_postgresql_opera.Client.Laws.{
  UpsertLaw, Upserted, unread, refused, unchanged, sent, Sends-perform,
}
use percona_postgresql_opera.Lease.{
  grant, evict, acquire_from, acquire_step, acquire_lease, release_step, release_lease, held_by,
}

module _ {W : Type 0} where
  -- The callback has found the holder stale at some state of the world.
  abbrev pub FoundStale : Option (String → Exec W Write Bool) → String → Type 0
  FoundStale none current = ⊥
  FoundStale (some check) current = (s : St W Write) × ((check current s).0 ≡ ok true)

  -- The lease was free, was the holder's already, or its holder was found stale.
  abbrev pub MayTake : Option (String → Exec W Write Bool) → String → Lease → Type 0
  MayTake check holder l =
      (l.holder_identity ≡ none)
      ⊎ (l.holder_identity ≡ some holder)
      ⊎ ((current : String) × (l.holder_identity ≡ some current) × FoundStale check current)

  -- A write of `acquire_lease`: a lease that the holder may take and that it has afterwards.
  abbrev pub Takes : Option (String → Exec W Write Bool) → String → Write → Type 0
  Takes check holder (put_lease old new) =
      (new.holder_identity ≡ some holder) × MayTake check holder old
  Takes check holder _ = ⊥

-- A write of `release_lease`: the lease that is deleted is free or the holder's.
abbrev pub Releases : String → Write → Type 0
Releases h (delete_lease l) = (l.holder_identity ≡ none) ⊎ (l.holder_identity ≡ some h)
Releases h _ = ⊥

abbrev pub CheckSends :
    {W : Type 0} → (Write → Type 0) → Option (String → Exec W Write Bool) → Type 0
CheckSends P none = Unit
CheckSends P (some check) = (current : String) → Sends P (check current)

module _ {W : Type 0} (c : Client W) (holder : String) where
  granted :
      (l l' : Lease) (s s' : St W Write)
      → grant c holder l s ≡ (ok l', s')
      → l'.holder_identity ≡ some holder
  unfolding grant ◌>>=◌ ask pure
  granted l l' s s' e = ground arith

  evicted :
      (check : Option (String → Exec W Write Bool)) (l l' : Lease) (current : String)
      (s s' : St W Write)
      → evict c holder check l current s ≡ (ok l', s')
      → (l'.holder_identity ≡ some holder) × FoundStale check current
  unfolding evict ◌>>=◌ raise
  evicted none l l' current s s' e = cc
  evicted (some check) l l' current s s' e =
      let both : (l'.holder_identity ≡ some holder) × ((check current s).0 ≡ ok true) =
        ground (arith, granted l l' (check current s).1 s') in
      (both.0, (s, both.1))

  acquired_from :
      (check : Option (String → Exec W Write Bool)) (l l' : Lease) (o : Option String)
      (s s' : St W Write)
      → l.holder_identity ≡ o
      → acquire_from c holder check l o s ≡ (ok l', s')
      → (l'.holder_identity ≡ some holder) × MayTake check holder l
  unfolding acquire_from pure
  acquired_from check l l' none s s' h e = (granted l l' s s' e, inl h)
  acquired_from check l l' (some current) s s' h e = elim (Bool-cases (current == holder)) [
    | inl same ↦
        let known : l.holder_identity ≡ some holder = ground (arith, eq_iff current holder) in
        (ground arith, inr (inl known))
    | inr other ↦
        let (taken, stale) = evicted check l l' current s s' (rw other at e) in
        (taken, inr (inr (current, h, stale)))
  ]

  -- What the function given to `CreateOrUpdate` returns is a lease of the holder, which it could
  -- take.
  pub acquired :
      (check : Option (String → Exec W Write Bool)) (l l' : Lease) (s s' : St W Write)
      → acquire_step c holder check l s ≡ (ok l', s')
      → (l'.holder_identity ≡ some holder) × MayTake check holder l
  unfolding acquire_step
  acquired check l l' s s' e = acquired_from check l l' l.holder_identity s s' refl e

  grant-Sends : {P : Write → Type 0} (l : Lease) → Sends P (grant c holder l)
  unfolding grant
  grant-Sends l = search sends_rules

  evict-Sends :
      {P : Write → Type 0} (check : Option (String → Exec W Write Bool)) (l : Lease)
      (current : String)
      → CheckSends P check
      → Sends P (evict c holder check l current)
  unfolding evict
  evict-Sends none l current k = search sends_rules
  evict-Sends (some check) l current k = search (sends_rules, grant-Sends, k current)

  acquire_from-Sends :
      {P : Write → Type 0} (check : Option (String → Exec W Write Bool)) (l : Lease)
      (o : Option String)
      → CheckSends P check
      → Sends P (acquire_from c holder check l o)
  unfolding acquire_from
  acquire_from-Sends check l none k = grant-Sends l
  acquire_from-Sends check l (some current) k =
      Sends-if _ _ _ (λ _. Sends-pure l) (λ _. evict-Sends check l current k)

  module _ (law : UpsertLaw c) (check : Option (String → Exec W Write Bool)) where
    upserted :
        {s s' : St W Write} {r : Result (Unit {0})}
        → CheckSends (Takes check holder) check
        → Upserted (acquire_step c holder check) s r s'
        → Adds (Takes check holder) s.log s'.log
    unfolding acquire_step
    upserted {s} k unread = Adds-refl s.log
    upserted {s} k (refused l e) =
        subst (λ p. Adds (Takes check holder) s.log p.1.log) e
          ((acquire_from-Sends check l l.holder_identity k).at _)
    upserted {s} k (unchanged l l' e) =
        subst (λ p. Adds (Takes check holder) s.log p.1.log) e
          ((acquire_from-Sends check l l.holder_identity k).at _)
    upserted {s} k (sent l l' e) =
        Adds-trans
          (subst (λ p. Adds (Takes check holder) s.log p.1.log) e
            ((acquire_from-Sends check l l.holder_identity k).at _))
          (Adds-one (put_lease l l') _ (acquired check l l' _ _ e))

    -- A lease is written only for the holder that asks, and only if it was free, was that holder's
    -- already, or `checkStale` said that its present holder is stale; a lease that another holder
    -- has is never taken without a callback. `checkStale` itself is assumed to write no lease.
    pub acquire_lease-Takes :
        (name : String)
        → CheckSends (Takes check holder) check
        → Sends (Takes check holder) (acquire_lease c name holder check)
    unfolding acquire_lease
    acquire_lease-Takes name k = record {
      at = λ s. upserted k (law.upserts name (acquire_step c holder check) s);
    }

  not_another :
      (l : Lease) (o : Option String)
      → l.holder_identity ≡ o
      → held_by o holder ≡ true
      → (l.holder_identity ≡ none) ⊎ (l.holder_identity ≡ some holder)
  unfolding held_by
  not_another l none h e = inl h
  not_another l (some current) h e = inr (ground (arith, eq_iff current holder))

  deleted-Sends :
      (l : Lease)
      → held_by l.holder_identity holder ≡ true
      → Sends (Releases holder) (perform c (delete_lease l))
  deleted-Sends l mine =
      Sends-perform c (delete_lease l) (not_another l l.holder_identity refl mine)

  release_step-Sends : (l : Lease) → Sends (Releases holder) (release_step c holder l)
  unfolding release_step
  release_step-Sends l = search (sends_rules, deleted-Sends)

  -- Releasing deletes no lease but one that is free or that the given holder has.
  pub release_lease-Releases :
      (name : String) → Sends (Releases holder) (release_lease c name holder)
  unfolding release_lease
  release_lease-Releases name = search (sends_rules, release_step-Sends)
