-- ===== src/Controller/Monitor.antt =====
-- Metrics, pkg/controller/virtualdatabase/prometheus-monitor.go and prometheus-config.go.
use teiid_operator.Prelude.{
  Bool, true, false, ◌||◌, Option, none, some, List, [], ◌∷◌, ◌==◌, if◌then◌else◌,
}
use teiid_operator.Text.{Str, text_Eq, codes}
use teiid_operator.Table.{lookup}
use teiid_operator.Result.{Result, ok, err}
use teiid_operator.Exec.{Exec, pure, gets, attempt, ◌>>=◌, ◌>>◌}
use teiid_operator.Vdb.{VirtualDatabase}
use teiid_operator.Controller.Config.{Config}
use teiid_operator.Controller.Cluster.{Cluster, Context, ServiceMonitor, ConfigMap, call}
use teiid_operator.Controller.Rules.{default_rules}
use teiid_operator.Controller.Actions.{Action, prometheus_monitor_can_handle}

-- `m[key]`, which is the empty text where the key is missing
unfoldable pub entry : List (Str × Str) → Str → Str
unfolding lookup
entry m key = elim (lookup m key) [ none ↦ [] | some v ↦ v ]

-- One of the configured labels is among those of a selector.
unfoldable pub selects : List (Str × Str) → List (Str × Str) → Bool
selects [] labels = false
selects ((k, v) ∷ configured) labels = entry labels k == v || selects configured labels

unfoldable pub any_selects : List (Str × Str) → List (Option (List (Str × Str))) → Bool
unfolding selects
any_selects configured [] = false
any_selects configured (none ∷ items) = any_selects configured items
any_selects configured (some labels ∷ items) =
    selects configured labels || any_selects configured items

unfoldable pub has_name : Str → List Str → Bool
has_name name [] = false
has_name name (n ∷ names) = n == name || has_name name names

unfoldable pub service_monitor : Config → VirtualDatabase → ServiceMonitor
service_monitor config vdb = record {
  name = vdb.name;
  namespace = vdb.namespace;
  labels = config.match_labels;
  selector = (codes "teiid.io/VirtualDatabase", vdb.name) ∷ (codes "app", vdb.name) ∷ [];
  port = codes "prometheus";
}

-- The rules of the configuration map where it has some.
unfoldable pub chosen_rules : Str → Result ConfigMap → Str
unfolding entry
chosen_rules default (ok cm) =
    if entry cm.data_map (codes "rules") == [] then default else entry cm.data_map (codes "rules")
chosen_rules default (err _) = default

module _ {W : Type 0} (cluster : Cluster W) where
  unfoldable pub prometheus_config : Str → Exec W Str
  unfolding chosen_rules default_rules
  prometheus_config namespace = do
    r ← attempt (cluster.get_config_map namespace (codes "teiid-prometheus-config"))
    pure (chosen_rules default_rules r)

module _ {W : Type 0} (cluster : Cluster W) (config : Config) where
  unfoldable pub has_prometheus : VirtualDatabase → Exec W Bool
  unfolding any_selects
  has_prometheus vdb = do
    r ← attempt (cluster.list_prometheus_selectors vdb.namespace)
    pure (elim r [ ok items ↦ any_selects config.match_labels items | err _ ↦ false ])

  unfoldable pub has_service_monitor : VirtualDatabase → Exec W Bool
  unfolding has_name
  has_service_monitor vdb = do
    r ← attempt (cluster.list_service_monitors vdb.namespace)
    pure (elim r [ ok names ↦ has_name vdb.name names | err _ ↦ false ])

  unfoldable pub create_monitor : VirtualDatabase → Exec W (Unit {0})
  unfolding service_monitor
  create_monitor vdb = do
    attempt (cluster.set_controller_reference vdb.name)
    cluster.create_service_monitor (service_monitor config vdb)

  unfoldable pub unless_monitored : VirtualDatabase → Bool → Exec W (Unit {0})
  unfolding create_monitor
  unless_monitored vdb true = pure tt
  unless_monitored vdb false = create_monitor vdb

  unfoldable pub when_prometheus : VirtualDatabase → Bool → Exec W (Unit {0})
  unfolding has_service_monitor unless_monitored
  when_prometheus vdb true = has_service_monitor vdb >>= unless_monitored vdb
  when_prometheus vdb false = pure tt

  unfoldable pub prometheus_monitor_handle : Exec (Context W) (Unit {0})
  unfolding has_prometheus when_prometheus
  prometheus_monitor_handle = do
    vdb ← gets (λ s. s.vdb)
    call (has_prometheus vdb >>= when_prometheus vdb)

  unfoldable pub prometheus_monitor_action : Action W
  prometheus_monitor_action = record {
    can_handle = λ vdb. prometheus_monitor_can_handle vdb.status.phase;
    handle = prometheus_monitor_handle;
  }
