-- ===== src/Orchestrate/Compensate/Calls.antt =====
-- Which compensations run, and how often (orchestrate/compensate.go).
use vagent.Common.{
  ℕ, zero, suc, ◌+◌, ◌-◌, ◌≤◌, ◌<◌, ◌≡◌, ◌∙◌, sym, ap, refl, inl, inr, String, false, List, [], ◌∷◌,
  ◌++◌, Option, none, some, select, arith, Option-cases, Bool-cases, if◌then◌else◌,
}
use vagent.Schema.{Types, RunResponse}
use vagent.Orchestrate.Node.{NodeStatus}
use vagent.Orchestrate.Compensate.{
  CompensateConfig, Compensator, max_attempts, backoff, compensate_attempts,
  execute_node_compensation, Rollback, compensate_node, compensate_nodes, is_done,
  completed_reverse, execute_backward_compensation,
}

-- The IDs with a compensator and a response.
abbrev pub callable :
    {T : Types} {W : Type 0}
    → (String → Option (Compensator T W))
    → (String → Option (RunResponse T))
    → List String
    → List String
callable compensator results [] = []
callable compensator results (id ∷ ids) =
    let rest = callable compensator results ids in
    elim (compensator id) [
      | none ↦ rest
      | some comp ↦ elim (results id) [ none ↦ rest | some resp ↦ id ∷ rest ]
    ]

append_assoc : {A : Type 0} (xs ys zs : List A) → (xs ++ ys) ++ zs ≡ xs ++ (ys ++ zs)
append_assoc [] ys zs = refl
append_assoc (x ∷ xs) ys zs = ap (λ r. x ∷ r) (append_assoc xs ys zs)

append-nil : {A : Type 0} (xs : List A) → xs ++ [] ≡ xs
append-nil [] = refl
append-nil (x ∷ xs) = ap (λ r. x ∷ r) (append-nil xs)

callable-append :
    {T : Types} {W : Type 0} (compensator : String → Option (Compensator T W))
    (results : String → Option (RunResponse T)) (xs ys : List String)
    → callable compensator results xs ++ callable compensator results ys
      ≡ callable compensator results (xs ++ ys)
callable-append compensator results [] ys = refl
callable-append compensator results (x ∷ xs) ys =
    let rest = callable-append compensator results xs ys in
    elim (Option-cases (compensator x)) [
      | inl missing ↦ ground (arith, missing, rest)
      | inr (comp, there) ↦ elim (Option-cases (results x)) [
        | inl missing ↦ ground (arith, there, missing, rest)
        | inr (resp, found) ↦ ground (arith, there, found, rest)
      ]
    ]

abbrev pub reverse : List String → List String
reverse [] = []
reverse (x ∷ xs) = reverse xs ++ x ∷ []

callable-completed :
    {T : Types} {W : Type 0} (compensator : String → Option (Compensator T W))
    (results : String → Option (RunResponse T)) (order : List String) (status : String → NodeStatus)
    → callable compensator results (completed_reverse status order)
      ≡ reverse (callable compensator results (select (λ id. is_done (status id)) order))
unfolding completed_reverse
callable-completed compensator results [] status = refl
callable-completed compensator results (id ∷ order) status =
    let rest = callable-completed compensator results order status in
    let split = callable-append compensator results (completed_reverse status order) (id ∷ []) in
    elim (Bool-cases (is_done (status id))) [
      | inr other ↦ ground (arith, other, rest)
      | inl finished ↦ elim (Option-cases (compensator id)) [
        | inl missing ↦ ground (
          arith,
          finished,
          missing,
          rest,
          split,
          append-nil (callable compensator results (completed_reverse status order)),
        )
        | inr (comp, there) ↦ elim (Option-cases (results id)) [
          | inl missing ↦ ground (
            arith,
            finished,
            there,
            missing,
            rest,
            split,
            append-nil (callable compensator results (completed_reverse status order)),
          )
          | inr (resp, found) ↦ ground (arith, finished, there, found, rest, split)
        ]
      ]
    ]

module _ {T : Types} {W : Type 0} (cfg : CompensateConfig) (wait : ℕ → W → Option T.Error × W) where
  attempts-calls :
      (calls : W → ℕ) (comp : Compensator T W) (resp : RunResponse T) (left attempt : ℕ) (w : W)
      → ((w : W) → calls (comp.compensate resp w).1 ≡ suc (calls w))
      → ((n : ℕ) (w : W) → calls (wait n w).1 ≡ calls w)
      → let w' = (compensate_attempts cfg wait comp resp left attempt w).1 in
        (calls w < calls w') × (calls w' ≤ calls w + suc left)
  unfolding compensate_attempts
  attempts-calls calls comp resp zero attempt w counts quiet =
      elim (Option-cases (comp.compensate resp w).0) [
        | inl fine ↦ ground (arith, fine, counts w)
        | inr (e, broke) ↦ ground (arith, broke, counts w)
      ]
  attempts-calls calls comp resp (suc left) attempt w counts quiet =
      let w₁ = (comp.compensate resp w).1 in
      let w₂ = (wait (backoff attempt) w₁).1 in
      elim (Option-cases (comp.compensate resp w).0) [
        | inl fine ↦ ground (arith, fine, counts w)
        | inr (e, broke) ↦ elim (Option-cases (wait (backoff attempt) w₁).0) [
          | inr (stop, over) ↦ ground (arith, broke, over, counts w, quiet (backoff attempt) w₁)
          | inl live ↦ ground (
            arith,
            broke,
            live,
            counts w,
            quiet (backoff attempt) w₁,
            attempts-calls calls comp resp left (suc attempt) w₂ counts quiet,
          )
        ]
      ]

  -- A node is compensated at least once, and at most once more than the retries, which only an
  -- idempotent compensation has: any other is called exactly once.
  pub node_compensation-calls :
      (calls : W → ℕ) (comp : Compensator T W) (resp : RunResponse T) (w : W)
      → ((w : W) → calls (comp.compensate resp w).1 ≡ suc (calls w))
      → ((n : ℕ) (w : W) → calls (wait n w).1 ≡ calls w)
      → let w' = (execute_node_compensation cfg wait comp resp w).1 in
        (calls w < calls w')
        × (calls w' ≤ calls w + (if comp.is_idempotent then suc cfg.max_retries else 1))
  unfolding execute_node_compensation
  node_compensation-calls calls comp resp w counts quiet =
      let (least, most) =
        attempts-calls calls comp resp (max_attempts cfg comp.is_idempotent - 1) 0 w counts quiet in
      (least, ground (arith, most))

  module _ (compensator : String → Option (Compensator T W))
      (results : String → Option (RunResponse T)) (log : W → List String)
      (logs : (id : String) (comp : Compensator T W) (resp : RunResponse T) (w : W)
        → compensator id ≡ some comp
        → log (comp.compensate resp w).1 ≡ log w ++ id ∷ [])
      (once : (id : String) (comp : Compensator T W)
        → compensator id ≡ some comp
        → comp.is_idempotent ≡ false) where
    compensate_node-log :
        (id : String) (r : Rollback T W)
        → log (compensate_node cfg wait compensator results id r).world
          ≡ log r.world ++ callable compensator results (id ∷ [])
    unfolding compensate_node execute_node_compensation compensate_attempts
    compensate_node-log id r = elim (Option-cases (compensator id)) [
      | inl missing ↦ ground (arith, missing, append-nil (log r.world))
      | inr (comp, there) ↦ elim (Option-cases (results id)) [
        | inl missing ↦ ground (arith, there, missing, append-nil (log r.world))
        | inr (resp, found) ↦
            let single = once id comp there in
            let called = logs id comp resp r.world there in
            elim (Option-cases (comp.compensate resp r.world).0) [
              | inl fine ↦ ground (arith, there, found, single, fine, called)
              | inr (e, broke) ↦ ground (arith, there, found, single, broke, called)
            ]
      ]
    ]

    compensate_nodes-log :
        (ids : List String) (r : Rollback T W)
        → log (compensate_nodes cfg wait compensator results ids r).world
          ≡ log r.world ++ callable compensator results ids
    unfolding compensate_nodes
    compensate_nodes-log [] r = sym (append-nil (log r.world))
    compensate_nodes-log (id ∷ ids) r =
        let next = compensate_node cfg wait compensator results id r in
        compensate_nodes-log ids next
        ∙ ap (λ l. l ++ callable compensator results ids) (compensate_node-log id r)
        ∙ append_assoc (log r.world) (callable compensator results (id ∷ []))
            (callable compensator results ids)
        ∙ ap (λ l. log r.world ++ l) (callable-append compensator results (id ∷ []) ids)

    -- When no compensation is idempotent and each logs its node, the rollback calls each done node
    -- that has a compensator and a response exactly once, whether it fails or not, in the reverse of
    -- the order that it is given.
    pub backward-log :
        (order : List String) (r : Rollback T W)
        → log (execute_backward_compensation cfg wait compensator results order r).world
          ≡ log r.world
            ++ reverse (callable compensator results (select (λ id. is_done (r.status id)) order))
    unfolding execute_backward_compensation
    backward-log order r =
        compensate_nodes-log (completed_reverse r.status order) r
        ∙ ap (λ l. log r.world ++ l) (callable-completed compensator results order r.status)
