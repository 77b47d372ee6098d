-- ===== src/Controller/Watches/Wakes.antt =====
-- Which runs of the loop wake it again, by the predicate of pkg/controller/virtualdatabase/watch.go.
use teiid_operator.Prelude.{ℕ, ◌≡◌, Bool, true, false, ◌⊎◌}
use teiid_operator.Vdb.{VirtualDatabase}
use teiid_operator.Controller.Config.{Config}
use teiid_operator.Controller.Cluster.{Cluster}
use teiid_operator.Controller.Transitions.{Edge}
use teiid_operator.Controller.Watches.{update_func}

-- The update of a resource passes the predicate and takes an edge of the diagram of phases, or does neither.
abbrev pub Wakes : ℕ → VirtualDatabase → VirtualDatabase → Type 0
Wakes generation u v =
    let wakes : Bool =
      update_func (record { generation = generation; vdb = u })
        (record { generation = generation; vdb = v }) in
    ((wakes ≡ true) × Edge u.status.phase v.status.phase)
    ⊎ ((wakes ≡ false) × (v.status.phase ≡ u.status.phase))
