-- ===== src/Guard/Chain.antt =====
-- What a chain of guards promises (guard/chain.go, `RunGuards`).
use mathlib.Core.Path.{subst}
use vagent.Common.{
  ℕ, suc, ◌≡◌, ◌≢◌, ◌⊎◌, inl, inr, refl, sym, ap, ◌∙◌, Option-cases, String, Bool, true, false,
  List, [], ◌∷◌, ◌++◌, Option, none, some, arith,
}
use vagent.Guard.{
  Message, Action, pass_action, block_action, rewrite_action, other_action, Result, Checked,
  checked, check_failed, Guard, ok, chain_result, guard_loop, run_guards,
}

append-nil : {A : Type 0} (xs : List A) → xs ++ [] ≡ xs
append-nil [] = refl
append-nil (x ∷ xs) = rw (append-nil xs)

Checked-cases :
    {E : Type 0} (c : Checked E)
    → ((r : Result) × (c ≡ checked (some r)))
      ⊎ ((e : E) × (c ≡ check_failed e))
      ⊎ (c ≡ checked none)
Checked-cases (check_failed e) = inr (inl (e, refl))
Checked-cases (checked none) = inr (inr refl)
Checked-cases (checked (some r)) = inl (r, refl)

Action-cases :
    (a : Action)
    → (a ≡ pass_action)
      ⊎ (a ≡ rewrite_action)
      ⊎ (a ≡ block_action)
      ⊎ ((text : String) × (a ≡ other_action text))
Action-cases pass_action = inl refl
Action-cases rewrite_action = inr (inl refl)
Action-cases block_action = inr (inr (inl refl))
Action-cases (other_action text) = inr (inr (inr (text, refl)))

module _ {T D E : Type 0} (ctx : ℕ → Option E) where
  -- `Clears i msg rw vs gs i' msg' rw' vs'`: the guards gs, from the i-th poll of the context on, are
  -- all consulted and let the message through, as msg', with the rewrites and violations noted.
  pub data Clears
      : ℕ
        → Message T D
        → Bool
        → List String
        → List (Guard T D E)
        → ℕ
        → Message T D
        → Bool
        → List String
        → Type 0 where
    clear :
        {i : ℕ} {msg : Message T D} {rw : Bool} {vs : List String}
        → Clears i msg rw vs [] i msg rw vs
    passes :
        {i j : ℕ} {msg msg' : Message T D} {rw rw' : Bool} {vs vs' : List String} {g : Guard T D E}
        {gs : List (Guard T D E)} {r : Result}
        → ctx i ≡ none
        → g.check msg ≡ checked (some r)
        → r.action ≡ pass_action
        → Clears (suc i) msg rw vs gs j msg' rw' vs'
        → Clears i msg rw vs (g ∷ gs) j msg' rw' vs'
    rewrites :
        {i j : ℕ} {msg msg' : Message T D} {rw rw' : Bool} {vs vs' : List String} {g : Guard T D E}
        {gs : List (Guard T D E)} {r : Result}
        → ctx i ≡ none
        → g.check msg ≡ checked (some r)
        → r.action ≡ rewrite_action
        → Clears
            (suc i)
            (record msg { content = r.content })
            true
            (vs ++ r.violations)
            gs
            j
            msg'
            rw'
            vs'
        → Clears i msg rw vs (g ∷ gs) j msg' rw' vs'

  guard_loop-Clears :
      {i j : ℕ} {msg msg' : Message T D} {rw rw' : Bool} {vs vs' : List String}
      {gs : List (Guard T D E)} (hs : List (Guard T D E))
      → Clears i msg rw vs gs j msg' rw' vs'
      → guard_loop ctx i msg rw vs (gs ++ hs) ≡ guard_loop ctx j msg' rw' vs' hs
  unfolding guard_loop
  guard_loop-Clears hs clear = refl
  guard_loop-Clears hs (passes live at act rest) = rw (live, at, act) (guard_loop-Clears hs rest)
  guard_loop-Clears hs (rewrites live at act rest) = rw (live, at, act) (guard_loop-Clears hs rest)

  guard_loop-block :
      (i : ℕ) (msg : Message T D) (changed : Bool) (vs : List String) (g : Guard T D E)
      (hs : List (Guard T D E)) (r : Result)
      → ctx i ≡ none
      → g.check msg ≡ checked (some r)
      → r.action ≡ block_action
      → guard_loop ctx i msg changed vs (g ∷ hs) ≡ (msg, ok r)
  unfolding guard_loop
  guard_loop-block i msg changed vs g hs r live at act = ground arith

  -- A chain whose guards all let the message through leaves it as they rewrote it, and reports
  -- the rewriting with every violation, or a plain pass when there was none.
  run_guards-Clears :
      {j : ℕ} {msg msg' : Message T D} {rw' : Bool} {vs : List String} (gs : List (Guard T D E))
      → Clears 0 msg false [] gs j msg' rw' vs
      → run_guards ctx msg gs ≡ (msg', ok (chain_result msg' rw' vs))
  unfolding run_guards guard_loop
  run_guards-Clears {msg} gs c =
      ap (guard_loop ctx 0 msg false []) (sym (append-nil gs)) ∙ guard_loop-Clears [] c

  -- When the guards before let the message through and the context is live, a guard that blocks
  -- decides: the chain returns its result, whatever guards follow.
  pub run_guards-block :
      {j : ℕ} {msg msg' : Message T D} {rw' : Bool} {vs : List String} {r : Result}
      (gs : List (Guard T D E)) (g : Guard T D E) (hs : List (Guard T D E))
      → Clears 0 msg false [] gs j msg' rw' vs
      → ctx j ≡ none
      → g.check msg' ≡ checked (some r)
      → r.action ≡ block_action
      → run_guards ctx msg (gs ++ g ∷ hs) ≡ (msg', ok r)
  unfolding run_guards guard_loop
  run_guards-block gs g hs c live at act =
      guard_loop-Clears (g ∷ hs) c ∙ guard_loop-block _ _ _ _ g hs _ live at act

  -- The guards from the i-th poll on are all consulted, and let the message through as `end`.
  abbrev pub AllClear :
      ℕ → Message T D → Bool → List String → List (Guard T D E) → Message T D → Type 0
  AllClear i msg changed vs gs end =
      (j : ℕ) × (changed' : Bool) × (vs' : List String) × Clears i msg changed vs gs j end changed'
        vs'

  add_pass :
      {i : ℕ} {msg end : Message T D} {changed : Bool} {vs : List String} {g : Guard T D E}
      {gs : List (Guard T D E)} {r : Result}
      → ctx i ≡ none
      → g.check msg ≡ checked (some r)
      → r.action ≡ pass_action
      → AllClear (suc i) msg changed vs gs end
      → AllClear i msg changed vs (g ∷ gs) end
  add_pass live at act (j, changed', vs', rest) = (j, changed', vs', passes live at act rest)

  add_rewrite :
      {i : ℕ} {msg end : Message T D} {changed : Bool} {vs : List String} {g : Guard T D E}
      {gs : List (Guard T D E)} {r : Result}
      → ctx i ≡ none
      → g.check msg ≡ checked (some r)
      → r.action ≡ rewrite_action
      → AllClear (suc i) (record msg { content = r.content }) true (vs ++ r.violations) gs end
      → AllClear i msg changed vs (g ∷ gs) end
  add_rewrite live at act (j, changed', vs', rest) = (j, changed', vs', rewrites live at act rest)

  guard_loop-ok :
      (i : ℕ) (msg : Message T D) (changed : Bool) (vs : List String) (gs : List (Guard T D E))
      (end : Message T D) (r : Result)
      → guard_loop ctx i msg changed vs gs ≡ (end, ok r)
      → r.action ≢ block_action
      → AllClear i msg changed vs gs end
  unfolding guard_loop
  guard_loop-ok i msg changed vs [] end r h nb =
      let same : msg ≡ end = ap (λ x. x.0) h in
      subst (AllClear i msg changed vs []) same (i, changed, vs, clear)
  guard_loop-ok i msg changed vs (g ∷ gs) end r h nb = elim (Option-cases (ctx i)) [
    | inr (e, dead) ↦ absurd (ground arith)
    | inl live ↦ elim (Checked-cases (g.check msg)) [
      | inr (inl (e, at)) ↦ absurd (ground arith)
      | inr (inr at) ↦ absurd (ground arith)
      | inl (r₁, at) ↦ elim (Action-cases (r₁.action)) [
        | inr (inr (inl act)) ↦ absurd (ground arith)
        | inr (inr (inr (text, act))) ↦ absurd (ground arith)
        | inl act ↦
            add_pass live at act (guard_loop-ok (suc i) msg changed vs gs end r (ground arith) nb)
        | inr (inl act) ↦ add_rewrite live at act (
            guard_loop-ok (suc i) (record msg { content = r₁.content }) true (vs ++ r₁.violations)
              gs end r (ground arith) nb)
      ]
    ]
  ]

  -- A chain that returns a result which does not block has consulted every guard on a live
  -- context, and each of them passed the message or rewrote it.
  pub run_guards-ok :
      (msg end : Message T D) (gs : List (Guard T D E)) (r : Result)
      → run_guards ctx msg gs ≡ (end, ok r)
      → r.action ≢ block_action
      → AllClear 0 msg false [] gs end
  unfolding run_guards
  run_guards-ok msg end gs r h nb = guard_loop-ok 0 msg false [] gs end r h nb
