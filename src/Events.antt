-- ===== src/Events.antt =====
-- pkg/util/events/events.go, without its lock: a listener is what it does to the state.
use teiid_operator.Prelude.{List, [], ◌∷◌, ◌++◌, for_each}
use teiid_operator.Text.{Str, codes}

abbrev pub vdb_deleted : Str
vdb_deleted = codes "VDB Deleted"

-- onEvent, with the type of the event, the namespace and the name of the resource, and the payload.
abbrev pub EventListener : Type 0 → Type 0 → Type 0
EventListener W Payload = Str → Str × Str → Payload → W → W

pub record EventSubscribers (W Payload : Type 0) : Type 0 where
  pub handlers : List (EventListener W Payload)

module _ {W Payload : Type 0} where
  unfoldable pub register :
      EventListener W Payload → EventSubscribers W Payload → EventSubscribers W Payload
  register handler u = record u { handlers = u.handlers ++ handler ∷ [] }

  unfoldable pub trigger : EventSubscribers W Payload → Str → Str × Str → Payload → W → W
  trigger u event_type resource payload w =
      for_each (λ x handler. handler event_type resource payload x) w u.handlers
