-- ===== src/Controller/Rules.antt =====
-- The rules that PrometheusConfig of pkg/controller/virtualdatabase/prometheus-config.go has where the
-- namespace has none of its own.
use teiid_operator.Prelude.{[], ◌∷◌}
use teiid_operator.Text.{Str, codes, join}

unfoldable pub default_rules : Str
unfolding join
default_rules =
    join
      (codes ""
        ∷ codes "    startDelaySecs: 5"
        ∷ codes "    ssl: false"
        ∷ codes "    blacklistObjectNames: [\"java.lang:*\"]"
        ∷ codes "    rules:"
        ∷ codes "    # Runtime/Engine level"
        ∷ codes "      - pattern: 'org.teiid<type=Runtime><>TotalRequestsProcessed'"
        ∷ codes "        name: org.teiid.TotalRequestsProcessed"
        ∷ codes "        help: Total Requests Processed"
        ∷ codes "        type: COUNTER"
        ∷ codes "        labels:"
        ∷ codes "            type: runtime"
        ∷ codes "      - pattern: 'org.teiid<type=Runtime><>WaitingRequestsCount'"
        ∷ codes "        name: org.teiid.WaitingRequestsCount"
        ∷ codes "        help: Requests that are waiting to begin processing"
        ∷ codes "        type: GAUGE"
        ∷ codes "        labels:"
        ∷ codes "            type: runtime      "
        ∷ codes "      - pattern: 'org.teiid<type=Runtime><>ActiveEngineThreadCount'"
        ∷ codes "        name: org.teiid.ActiveEngineThreadCount"
        ∷ codes "        help: Number of Engine Threads Currently Working"
        ∷ codes "        type: GAUGE"
        ∷ codes "        labels:"
        ∷ codes "            type: runtime"
        ∷ codes "      - pattern: 'org.teiid<type=Runtime><>QueuedEngineWorkItems'"
        ∷ codes "        name: org.teiid.QueuedEngineWorkItems"
        ∷ codes "        help: Number of Queued Work Items"
        ∷ codes "        type: GAUGE"
        ∷ codes "        labels:"
        ∷ codes "            type: runtime"
        ∷ codes "      - pattern: 'org.teiid<type=Runtime><>LongRunningRequestCount'"
        ∷ codes "        name: org.teiid.LongRunningRequestCount"
        ∷ codes "        help: Number of Long Running Requests"
        ∷ codes "        type: GAUGE"
        ∷ codes "        labels:"
        ∷ codes "            type: runtime"
        ∷ codes "      - pattern: 'org.teiid<type=Runtime><>TotalOutOfDiskErrors'"
        ∷ codes "        name: org.teiid.TotalOutOfDiskErrors"
        ∷ codes "        help: Total Buffer Out Of Disk Errors"
        ∷ codes "        type: COUNTER"
        ∷ codes "        labels:"
        ∷ codes "            type: runtime"
        ∷ codes "      - pattern: 'org.teiid<type=Runtime><>PercentBufferDiskSpaceInUse'"
        ∷ codes "        name: org.teiid.PercentBufferDiskSpaceInUse"
        ∷ codes "        help: Percent Buffer Disk Space In Use"
        ∷ codes "        type: GAUGE"
        ∷ codes "        labels:"
        ∷ codes "            type: runtime"
        ∷ codes "      - pattern: 'org.teiid<type=Runtime><EngineStatisticsBean>sessionCount'"
        ∷ codes "        name: org.teiid.SessionCount"
        ∷ codes "        help: Number of Client Sessions"
        ∷ codes "        type: GAUGE"
        ∷ codes "        labels:"
        ∷ codes "            type: runtime"
        ∷ codes "      - pattern: 'org.teiid<type=Runtime><EngineStatisticsBean>diskSpaceUsedInMB'"
        ∷ codes "        name: org.teiid.DiskSpaceUsedInMB"
        ∷ codes "        help: Amount of Disk MB in Use"
        ∷ codes "        type: GAUGE"
        ∷ codes "        labels:"
        ∷ codes "            type: runtime"
        ∷ codes "      - pattern: 'org.teiid<type=Runtime><EngineStatisticsBean>activePlanCount'"
        ∷ codes "        name: org.teiid.ActiveRequestCount"
        ∷ codes "        help: Number of Actively Processing Requests"
        ∷ codes "        type: GAUGE"
        ∷ codes "        labels:"
        ∷ codes "            type: runtime"
        ∷ codes "            "
        ∷ codes "    #cache"
        ∷ codes "      - pattern: 'org.teiid<type=Cache, name=(\\w*)><>RequestCount'"
        ∷ codes "        name: org.teiid.CacheRequestCount"
        ∷ codes "        help: Number of Cache Reads"
        ∷ codes "        type: GAUGE"
        ∷ codes "        labels:"
        ∷ codes "            type: cache"
        ∷ codes "            entry: $1"
        ∷ codes "      - pattern: 'org.teiid<type=Cache, name=(\\w*)><>TotalEntries'"
        ∷ codes "        name: org.teiid.CacheTotalEntries"
        ∷ codes "        help: Number of Cache Entries"
        ∷ codes "        type: GAUGE"
        ∷ codes "        labels:"
        ∷ codes "            type: cache"
        ∷ codes "            entry: $1"
        ∷ codes "      - pattern: 'org.teiid<type=Cache, name=(\\w*)><>HitRatio'"
        ∷ codes "        name: org.teiid.CacheHitRatio"
        ∷ codes "        help: Hits / Total Attempts"
        ∷ codes "        type: GAUGE"
        ∷ codes "        labels:"
        ∷ codes "            type: cache"
        ∷ codes "            entry: $1"
        ∷ codes ""
        ∷ codes "    "
        ∷ [])
      (10 ∷ [])
