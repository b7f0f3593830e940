-- ===== src/Cluster/Host.antt =====
-- `getHost`.
use Prim.Native.String.{◌++◌}
use percona_postgresql_opera.Prelude.{
  String, Bool, false, ◌==◌, if◌then◌else◌, List, [], ◌∷◌, Option, none, some,
}
use percona_postgresql_opera.Exec.{Exec, pure, read, ◌>>=◌}
use percona_postgresql_opera.Types.Meta.{LoadBalancerIngress}
use percona_postgresql_opera.Types.Cluster.{PgProxySpec, PerconaPgCluster, pgbouncer_enabled}
use percona_postgresql_opera.Types.Write.{Write}
use percona_postgresql_opera.Client.{Client}

abbrev pub svc_fqdn : String → String → String
svc_fqdn svc_name ns = svc_name ++ ("." ++ (ns ++ ".svc"))

-- `ServiceExpose.Type`, if the proxy has it
abbrev pub expose_type_of : Option PgProxySpec → Option String
expose_type_of none = none
expose_type_of (some p) = elim p.pgbouncer [ none ↦ none | some b ↦ b.expose_type ]

abbrev pub is_load_balancer : Option String → Bool
is_load_balancer none = false
is_load_balancer (some t) = t == "LoadBalancer"

-- The last entry decides, by its host name if it has one.
unfoldable pub last_host : String → List LoadBalancerIngress → String
last_host host [] = host
last_host host (i ∷ is) = last_host (if i.hostname == "" then i.ip else i.hostname) is

unfoldable pub get_host : {W : Type 0} → Client W → PerconaPgCluster → Exec W Write String
unfolding last_host
get_host c cr =
    if pgbouncer_enabled cr.proxy
    then (if is_load_balancer (expose_type_of cr.proxy)
        then (do
          ingress ← read (c.get_ingress (cr.meta.name ++ "-pgbouncer"))
          pure (last_host "" ingress))
        else pure (svc_fqdn (cr.meta.name ++ "-pgbouncer") cr.meta.namespace))
    else pure (svc_fqdn (cr.meta.name ++ "-primary") cr.meta.namespace)
