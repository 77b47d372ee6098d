-- ===== src/Controller/Watches/Order.antt =====
-- The watches as one list.
use teiid_operator.Prelude.{
  ◌≡◌, refl, sym, ap, ◌∙◌, List, [], ◌∷◌, ◌++◌, append_assoc, map, append-nil,
}
use teiid_operator.Result.{Result, ok, err}
use teiid_operator.Exec.{Exec, pure, continue, ◌>>=◌}
use teiid_operator.Controller.Watches.{
  Kind, Watch, owner_watch, primary_watch, watch_objects, watch_owned_objects, watch_all, add,
  virtual_database, build_config, build, image_stream, deployment, deployment_config,
  persistent_volume_claim, service, route,
}

-- The thirteen watches of the controller.
abbrev pub all_watches : List Watch
all_watches =
    owner_watch virtual_database
    ∷ owner_watch build_config
    ∷ owner_watch build
    ∷ owner_watch image_stream
    ∷ owner_watch deployment
    ∷ primary_watch
    ∷ owner_watch deployment_config
    ∷ owner_watch persistent_volume_claim
    ∷ owner_watch service
    ∷ owner_watch route
    ∷ owner_watch build_config
    ∷ owner_watch build
    ∷ owner_watch image_stream
    ∷ []

-- What a list of watches returns and leaves, from what its first one returned.
abbrev pub verdict_with : Result (Unit {0}) → Result (Unit {0}) → Result (Unit {0})
verdict_with (ok _) rest = rest
verdict_with (err e) rest = err e

abbrev pub asked_with : Result (Unit {0}) → List Watch → List Watch
asked_with (ok _) rest = rest
asked_with (err e) rest = []

module _ (answer : Watch → Result (Unit {0})) where
  -- The watches of a list up to the first that is refused, that one included, and what the first refused
  -- one returns.
  abbrev pub asked_of : List Watch → List Watch
  asked_of [] = []
  asked_of (o ∷ os) = o ∷ asked_with (answer o) (asked_of os)

  abbrev pub verdict_of : List Watch → Result (Unit {0})
  verdict_of [] = ok tt
  verdict_of (o ∷ os) = verdict_with (answer o) (verdict_of os)

  -- A manager that writes down what it is asked for.
  abbrev pub recorder : {C : Type 0} → C → Watch → Exec (List Watch) (Unit {0})
  recorder c o log = (answer o, log ++ o ∷ [])

  -- A run that asks for the watches of a list, in order, until one is refused.
  abbrev pub Asks : List Watch → Exec (List Watch) (Unit {0}) → Type 0
  Asks os m = (log : List Watch) → m log ≡ (verdict_of os, log ++ asked_of os)

  after :
      (r : Result (Unit {0})) (o : Watch) (os : List Watch) (rest : Exec (List Watch) (Unit {0}))
      (log : List Watch)
      → Asks os rest
      → continue r (λ _. rest) (log ++ o ∷ [])
        ≡ (verdict_with r (verdict_of os), log ++ o ∷ asked_with r (asked_of os))
  after (ok a) o os rest log h =
      h (log ++ o ∷ []) ∙ ap (λ l. (verdict_of os, l)) (append_assoc log (o ∷ []) (asked_of os))
  after (err e) o os rest log h = refl

  flat :
      (r : Result (Unit {0})) (m rest : Exec (List Watch) (Unit {0})) (log : List Watch)
      → let end : Result (Unit {0}) × List Watch = continue r (λ _. m) log in
        continue end.0 (λ _. rest) end.1 ≡ continue r (λ _. m >>= λ _. rest) log
  flat (ok a) m rest log = refl
  flat (err e) m rest log = refl

  settled :
      (end : Result (Unit {0}) × List Watch)
      → continue end.0 (λ _. pure {S = List Watch} tt) end.1 ≡ end
  settled (ok a, log) = refl
  settled (err e, log) = refl

  nothing : Asks [] (pure tt)
  nothing log = ap (λ l. (ok tt, l)) (sym (append-nil log))

  module _ {C : Type 0} (made : Result C) where
    watch_all-Asks :
        (c : C) (kinds : List Kind) (os : List Watch) (rest : Exec (List Watch) (Unit {0}))
        → Asks os rest
        → Asks
            (map owner_watch kinds ++ os)
            (watch_all (λ log. (made, log)) recorder c kinds >>= λ _. rest)
    unfolding watch_all
    watch_all-Asks c [] os rest h log = h log
    watch_all-Asks c (k ∷ kinds) os rest h log =
        let later : Exec (List Watch) (Unit {0}) =
          watch_all (λ log. (made, log)) recorder c kinds in
        flat (answer (owner_watch k)) later rest (log ++ owner_watch k ∷ [])
        ∙ after (answer (owner_watch k)) (owner_watch k) (map owner_watch kinds ++ os)
            (later >>= λ _. rest) log (watch_all-Asks c kinds os rest h)

    owned-Asks :
        (c : C)
        → Asks
            (map owner_watch watch_owned_objects)
            (watch_all (λ log. (made, log)) recorder c watch_owned_objects)
    owned-Asks c log =
        sym (settled (watch_all (λ log. (made, log)) recorder c watch_owned_objects log))
        ∙ watch_all-Asks c watch_owned_objects [] (pure tt) nothing log

    primary-Asks :
        (c : C)
        → Asks (primary_watch ∷ map owner_watch watch_owned_objects) (
            recorder c primary_watch >>= λ _.
            watch_all (λ log. (made, log)) recorder c watch_owned_objects)
    primary-Asks c log =
        after (answer primary_watch) primary_watch (map owner_watch watch_owned_objects)
          (watch_all (λ log. (made, log)) recorder c watch_owned_objects) log (owned-Asks c)

  -- What the registration returns and leaves, from what the constructor of the controller returned.
  abbrev pub registered : {C : Type 0} → Result C → List Watch → Result (Unit {0}) × List Watch
  registered (ok c) log = (verdict_of all_watches, log ++ asked_of all_watches)
  registered (err e) log = (err e, log)

  -- Of a manager that writes down what it is asked for and may refuse any watch, the registration asks for
  -- the thirteen watches of the controller in their order, up to the first that is refused, and returns
  -- what that one returned; where there is no controller it asks for none, and returns that error.
  pub add-registered :
      {C : Type 0} (made : Result C) (log : List Watch)
      → add (λ l. (made, l)) recorder log ≡ registered made log
  unfolding add
  add-registered (err e) log = refl
  add-registered (ok c) log =
      watch_all-Asks (ok c) c watch_objects (primary_watch ∷ map owner_watch watch_owned_objects)
        (recorder c primary_watch >>= λ _.
          watch_all (λ l. (ok c, l)) recorder c watch_owned_objects)
        (primary-Asks (ok c) c) log
