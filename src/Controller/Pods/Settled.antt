-- ===== src/Controller/Pods/Settled.antt =====
-- What the comparisons of ensureReplicas leave.
use teiid_operator.Prelude.{
  ℕ, ◌≡◌, refl, sym, ap, ◌∙◌, Bool, true, false, Option, none, some, List, [], ◌∷◌, ◌==◌, nat_Eq,
  nat_beq_iff, if◌then◌else◌, arith, Bool-cases, inl, inr,
}
use teiid_operator.Result.{Result, ok, err, panic}
use teiid_operator.Envvar.{EnvVar}
use teiid_operator.Controller.Cluster.{Deployment, Container}
use teiid_operator.Controller.Deep.{differs, proved-refutes}
use teiid_operator.Controller.Pods.{
  EnvVars-discrete, with_first, first_container, changed_to, adjust_replicas, adjust_env,
}

abbrev pub first_env : Deployment → Option (List EnvVar)
first_env item = elim item.containers [ [] ↦ none | c ∷ rest ↦ some c.env ]

-- The deployment has the number of replicas, and its first container the variables; and it counts as
-- changed unless it is the one of before.
abbrev pub Settled : ℕ → List EnvVar → Deployment → Result (Deployment × Bool) → Type 0
Settled wanted envs item (ok (d, changed)) =
    (d.replicas ≡ some wanted) × (first_env d ≡ some envs) × (changed ≡ false → d ≡ item)
Settled wanted envs item (err e) = ⊥

-- What the comparison of the replicas leaves.
abbrev Adjusted : ℕ → Container → Deployment → Deployment × Bool → Type 0
Adjusted wanted c item (d, changed) =
    (d.replicas ≡ some wanted) × (first_container d ≡ ok c) × (changed ≡ false → d ≡ item)

adjust_replicas-Adjusted :
    (wanted found : ℕ) (c : Container) (item : Deployment)
    → item.replicas ≡ some found
    → first_container item ≡ ok c
    → Adjusted wanted c item (adjust_replicas wanted found item)
unfolding adjust_replicas first_container
adjust_replicas-Adjusted wanted found c item r f = elim (Bool-cases (wanted == found)) [
  | inl h ↦ rw h (r ∙ ap some (sym ((nat_beq_iff wanted found).0 h)), f, λ e. refl)
  | inr h ↦ rw h (refl, f, λ e. ground (arith, e))
]

first_env_lem :
    (d : Deployment) (c : Container) → first_container d ≡ ok c → first_env d ≡ some c.env
unfolding first_container
first_env_lem d c f = go d.containers f
  where
    go :
        (cs : List Container)
        → elim cs [ [] ↦ err panic | x ∷ rest ↦ ok x ] ≡ ok c
        → elim cs [ [] ↦ none | x ∷ rest ↦ some x.env ] ≡ some c.env
    go [] e = ground (arith, e)
    go (x ∷ rest) e = ground (arith, e)

written :
    (wanted : ℕ) (envs : List EnvVar) (c : Container) (item d : Deployment)
    → d.replicas ≡ some wanted
    → first_container d ≡ ok c
    → Settled wanted envs item (changed_to (with_first (λ x. record x { env = envs }) d))
unfolding with_first first_container
written wanted envs c item d r f = go d.containers f
  where
    go :
        (cs : List Container)
        → elim cs [ [] ↦ err panic | x ∷ rest ↦ ok x ] ≡ ok c
        → Settled wanted envs item (
            changed_to (elim cs [
              | [] ↦ err panic
              | x ∷ rest ↦ ok (record d { containers = record x { env = envs } ∷ rest })
            ]))
    go [] e = ground (arith, e)
    go (x ∷ rest) e = (r, refl, λ h. ground (arith, h))

decided :
    (wanted : ℕ) (envs : List EnvVar) (item : Deployment) (b : Bool)
    (x y : Result (Deployment × Bool))
    → (b ≡ true → Settled wanted envs item x)
    → (b ≡ false → Settled wanted envs item y)
    → Settled wanted envs item (if b then x else y)
decided wanted envs item true x y p q = p refl
decided wanted envs item false x y p q = q refl

adjust_env-Settled :
    (wanted : ℕ) (envs : List EnvVar) (c : Container) (item d : Deployment) (changed : Bool)
    → Adjusted wanted c item (d, changed)
    → Settled wanted envs item (adjust_env envs c (d, changed))
unfolding adjust_env
adjust_env-Settled wanted envs c item d changed (r, f, k) =
    decided wanted envs item (differs EnvVars-discrete envs c.env) _ _
      (λ h. written wanted envs c item d r f)
      (λ h. (
        r,
        first_env_lem d c f ∙ ap some (sym (proved-refutes (EnvVars-discrete envs c.env) h)),
        k,
      ))

-- Of a deployment that has a number of replicas and a container, the comparisons make one with the number
-- of replicas that is wanted and with the variables, in the first container, that are wanted; they do
-- not panic, and report no change only where the deployment is left as it was.
pub adjust-Settled :
    (wanted found : ℕ) (envs : List EnvVar) (c : Container) (item : Deployment)
    → item.replicas ≡ some found
    → first_container item ≡ ok c
    → Settled wanted envs item (adjust_env envs c (adjust_replicas wanted found item))
adjust-Settled wanted found envs c item r f =
    adjust_env-Settled wanted envs c item (adjust_replicas wanted found item).0
      (adjust_replicas wanted found item).1 (adjust_replicas-Adjusted wanted found c item r f)
