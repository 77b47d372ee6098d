-- ===== src/Controller/Steps/Verdicts.antt =====
-- What builds and deployments say, independently of the code that judges them, and the judgements of
-- pkg/controller/virtualdatabase on them: s2i_builder_image.go, service_image.go and deployment.go.
use teiid_operator.Prelude.{
  ℕ, ◌≡◌, ◌≢◌, refl, ◌∙◌, Bool, true, false, ◌&&◌, ◌⊎◌, inl, inr, List, [], ◌∷◌, ◌++◌, ◌<◌, ◌≤◌,
  ltb, nat_Eq, All, arith, ap, sym, Bool-cases,
}
use teiid_operator.Text.{text_Eq}
use teiid_operator.Vdb.{
  Phase, builder_image_finished, builder_image_failed, service_image_finished, service_image_failed,
}
use teiid_operator.Controller.Cluster.{
  BuildRun, BuildPhase, complete, error, failed, cancelled, other, Deployment, Condition,
  ConditionType, available, progressing,
}
use teiid_operator.Controller.BuilderImage.{judge_build, judge_builds}
use teiid_operator.Controller.ServiceImage.{judge_service_build, latest_build}
use teiid_operator.Controller.ServiceImage.Latest.{number, AtMost, newer, older}
use teiid_operator.Controller.Pods.{
  any_condition, is_available, is_progressing, is_deployment_in_ready_state,
  is_deployment_progressing,
}

-- How a build may end without an image.
abbrev pub IsFailure : BuildPhase → Type 0
IsFailure p = (p ≡ error) ⊎ (p ≡ failed) ⊎ (p ≡ cancelled)

-- A build that has not begun to run.
abbrev pub IsWaiting : BuildRun → Type 0
IsWaiting b = b.phase ≡ other

abbrev pub IsBelow : ℕ → BuildRun → Type 0
IsBelow n b = number b < n

-- The build of the list with the greatest number, the first one of these.
abbrev pub IsNewest : List BuildRun → BuildRun → List BuildRun → Type 0
IsNewest before b after = (0 < number b) × All (IsBelow (number b)) before × AtMost (number b) after

-- No condition of the type has the status `True`.
abbrev pub IsUnmet : ConditionType → Condition → Type 0
IsUnmet t c = (c.type ≢ t) ⊎ (c.status ≡ false)

judge_build-complete :
    (p : Phase) (b : BuildPhase) → b ≡ complete → judge_build p b ≡ builder_image_finished
unfolding judge_build
judge_build-complete p b e = rw e refl

judge_build-IsFailure :
    (p : Phase) (b : BuildPhase) → IsFailure b → judge_build p b ≡ builder_image_failed
unfolding judge_build
judge_build-IsFailure p b (inl e) = rw e refl
judge_build-IsFailure p b (inr (inl e)) = rw e refl
judge_build-IsFailure p b (inr (inr e)) = rw e refl

judge_builds-waiting :
    (p : Phase) (builds : List BuildRun) → All IsWaiting builds → judge_builds p builds ≡ p
unfolding judge_builds judge_build
judge_builds-waiting p [] h = refl
judge_builds-waiting p (b ∷ builds) h = rw h.0 (judge_builds-waiting p builds h.1)

-- The last build of the list that has begun decides.
pub judge_builds-last :
    (p q : Phase) (before : List BuildRun) (b : BuildRun) (after : List BuildRun)
    → ((p : Phase) → judge_build p b.phase ≡ q)
    → All IsWaiting after
    → judge_builds p (before ++ b ∷ after) ≡ q
unfolding judge_builds
judge_builds-last p q [] b after d h = judge_builds-waiting (judge_build p b.phase) after h ∙ d p
judge_builds-last p q (x ∷ before) b after d h =
    judge_builds-last (judge_build p x.phase) q before b after d h

pub judge_builds-complete :
    (p : Phase) (before : List BuildRun) (b : BuildRun) (after : List BuildRun)
    → b.phase ≡ complete
    → All IsWaiting after
    → judge_builds p (before ++ b ∷ after) ≡ builder_image_finished
judge_builds-complete p before b after e =
    judge_builds-last p builder_image_finished before b after
      (λ x. judge_build-complete x b.phase e)

pub judge_builds-IsFailure :
    (p : Phase) (before : List BuildRun) (b : BuildRun) (after : List BuildRun)
    → IsFailure b.phase
    → All IsWaiting after
    → judge_builds p (before ++ b ∷ after) ≡ builder_image_failed
judge_builds-IsFailure p before b after e =
    judge_builds-last p builder_image_failed before b after (λ x. judge_build-IsFailure x b.phase e)

pub judge_service_build-complete :
    (p : Phase) (b : BuildPhase) → b ≡ complete → judge_service_build p b ≡ service_image_finished
unfolding judge_service_build
judge_service_build-complete p b e = rw e refl

pub judge_service_build-IsFailure :
    (p : Phase) (b : BuildPhase) → IsFailure b → judge_service_build p b ≡ service_image_failed
unfolding judge_service_build
judge_service_build-IsFailure p b (inl e) = rw e refl
judge_service_build-IsFailure p b (inr (inl e)) = rw e refl
judge_service_build-IsFailure p b (inr (inr e)) = rw e refl

ltb_of_le : (m n : ℕ) → n ≤ m → ltb m n ≡ false
ltb_of_le m n h = ground (arith, h)

ltb_of_lt : (m n : ℕ) → m < n → ltb m n ≡ true
ltb_of_lt m n h = ground (arith, h)

latest_build-AtMost_same :
    (builds : List BuildRun) (c : BuildRun)
    → AtMost (number c) builds
    → latest_build builds (number c) c ≡ c
latest_build-AtMost_same [] c h = unfold latest_build in refl
latest_build-AtMost_same (b ∷ builds) c h =
    older b builds (number c) c (ltb_of_le (number c) (number b) h.0)
    ∙ latest_build-AtMost_same builds c h.1

-- The loop finds the newest build, whatever it is to beat below that one's number.
latest_build-newest :
    (before : List BuildRun) (b : BuildRun) (after : List BuildRun) (m : ℕ) (c : BuildRun)
    → m < number b
    → All (IsBelow (number b)) before
    → AtMost (number b) after
    → latest_build (before ++ b ∷ after) m c ≡ b
latest_build-newest [] b after m c lt h k =
    newer b after m c (ltb_of_lt m (number b) lt) ∙ latest_build-AtMost_same after b k
latest_build-newest (x ∷ before) b after m c lt h k = elim (Bool-cases (ltb m (number x))) [
  | inl e ↦
      newer x (before ++ b ∷ after) m c e
      ∙ latest_build-newest before b after (number x) x h.0 h.1 k
  | inr e ↦ older x (before ++ b ∷ after) m c e ∙ latest_build-newest before b after m c lt h.1 k
]

pub latest_build-IsNewest :
    (before : List BuildRun) (b : BuildRun) (after : List BuildRun) (c : BuildRun)
    → IsNewest before b after
    → latest_build (before ++ b ∷ after) 0 c ≡ b
latest_build-IsNewest before b after c (lt, h, k) = latest_build-newest before b after 0 c lt h k

any_condition-here :
    (test : ConditionType → Bool) (before : List Condition) (c : Condition) (after : List Condition)
    → test c.type ≡ true
    → c.status ≡ true
    → any_condition test (before ++ c ∷ after) ≡ true
unfolding any_condition
any_condition-here test [] c after t s = rw (t, s) refl
any_condition-here test (x ∷ before) c after t s =
    rw (any_condition-here test before c after t s) (ground arith)

any_condition-none :
    (test : ConditionType → Bool) (conditions : List Condition)
    → All (λ c. test c.type && c.status ≡ false) conditions
    → any_condition test conditions ≡ false
unfolding any_condition
any_condition-none test [] h = refl
any_condition-none test (c ∷ conditions) h = rw (h.0, any_condition-none test conditions h.1) refl

available_unmet :
    (t : ConditionType) (b : Bool) → (t ≢ available) ⊎ (b ≡ false) → is_available t && b ≡ false
available_unmet t b (inl n) = ground (arith, n)
available_unmet t b (inr e) = rw e (ground arith)

progressing_unmet :
    (t : ConditionType) (b : Bool) → (t ≢ progressing) ⊎ (b ≡ false) → is_progressing t && b ≡ false
progressing_unmet t b (inl n) = ground (arith, n)
progressing_unmet t b (inr e) = rw e (ground arith)

All-available_unmet :
    (cs : List Condition)
    → All (IsUnmet available) cs
    → All (λ c. is_available c.type && c.status ≡ false) cs
All-available_unmet [] h = tt
All-available_unmet (c ∷ cs) h = (available_unmet c.type c.status h.0, All-available_unmet cs h.1)

All-progressing_unmet :
    (cs : List Condition)
    → All (IsUnmet progressing) cs
    → All (λ c. is_progressing c.type && c.status ≡ false) cs
All-progressing_unmet [] h = tt
All-progressing_unmet (c ∷ cs) h =
    (progressing_unmet c.type c.status h.0, All-progressing_unmet cs h.1)

pub is_deployment_in_ready_state-met :
    (item : Deployment) (before : List Condition) (c : Condition) (after : List Condition)
    → item.conditions ≡ before ++ c ∷ after
    → c.type ≡ available
    → c.status ≡ true
    → is_deployment_in_ready_state item ≡ true
unfolding is_deployment_in_ready_state
is_deployment_in_ready_state-met item before c after e t s =
    rw e (any_condition-here is_available before c after (rw t refl) s)

pub is_deployment_in_ready_state-unmet :
    (item : Deployment)
    → All (IsUnmet available) item.conditions
    → is_deployment_in_ready_state item ≡ false
unfolding is_deployment_in_ready_state
is_deployment_in_ready_state-unmet item h =
    any_condition-none is_available item.conditions (All-available_unmet item.conditions h)

pub is_deployment_progressing-unmet :
    (item : Deployment) (c : Condition) (cs : List Condition)
    → item.conditions ≡ c ∷ cs
    → All (IsUnmet progressing) item.conditions
    → 4 ≤ item.observed_generation
    → is_deployment_progressing item ≡ false
unfolding is_deployment_progressing
is_deployment_progressing-unmet item c cs e h g =
    let none_met =
      any_condition-none is_progressing item.conditions (All-progressing_unmet item.conditions h) in
    rw (e, ap (any_condition is_progressing) (sym e) ∙ none_met)
      (ltb_of_le item.observed_generation 4 g)
