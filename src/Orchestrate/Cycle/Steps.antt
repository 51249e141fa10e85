-- ===== src/Orchestrate/Cycle/Steps.antt =====
-- A search that finished, one step at a time, and the colors it leaves (orchestrate/dag.go,
-- `detectCycle`).
use vagent.Common.{
  ℕ, zero, suc, ◌≡◌, ◌≢◌, ◌∙◌, ap, refl, ◌⊎◌, inl, inr, String, str_eq, List, [], ◌∷◌, arith,
  Bool-cases,
}
use vagent.Schema.{Types}
use vagent.Orchestrate.Node.{Node, update}
use vagent.Orchestrate.Cycle.{
  Color, white, gray, black, Search, finished, cycle, out_of_fuel, visit_next, visit, visit_nodes,
}

pub Color-cases : (c : Color) → (c ≡ white) ⊎ (c ≡ gray) ⊎ (c ≡ black)
Color-cases white = inl refl
Color-cases gray = inr (inl refl)
Color-cases black = inr (inr refl)

pub Search-cases :
    (s : Search)
    → ((color : String → Color) × (s ≡ finished color))
      ⊎ ((x : String) × (s ≡ cycle x))
      ⊎ (s ≡ out_of_fuel)
Search-cases (finished color) = inl (color, refl)
Search-cases (cycle x) = inr (inl (x, refl))
Search-cases out_of_fuel = inr (inr refl)

pub finished_inj : (c c' : String → Color) → finished c ≡ finished c' → (x : String) → c x ≡ c' x
finished_inj c c' same x = let colors : c ≡ c' = cc in ap (λ f. f x) colors

module _ (step : String → (String → Color) → Search) where
  pub visit_next-finished :
      (next : String) (rest : List String) (color color' : String → Color)
      → visit_next step (next ∷ rest) color ≡ finished color'
      → ((color₁ : String → Color) × (color next ≡ white)
          × (step next color ≡ finished color₁)
          × (visit_next step rest color₁ ≡ finished color'))
        ⊎ ((color next ≡ black) × (visit_next step rest color ≡ finished color'))
  unfolding visit_next
  visit_next-finished next rest color color' done = elim (Color-cases (color next)) [
    | inl new ↦ elim (Search-cases (step next color)) [
      | inl (color₁, fine) ↦ inl (color₁, new, fine, ground (arith, new, fine, done))
      | inr (inl (x, found)) ↦ absurd (ground (arith, new, found, done))
      | inr (inr empty) ↦ absurd (ground (arith, new, empty, done))
    ]
    | inr (inl on_path) ↦ absurd (ground (arith, on_path, done))
    | inr (inr old) ↦ inr (old, ground (arith, old, done))
  ]

module _ (adj : String → List String) where
  pub visit-finished :
      (fuel : ℕ) (id : String) (color color' : String → Color)
      → visit adj (suc fuel) id color ≡ finished color'
      → (color₁ : String → Color) × (visit_next (visit adj fuel) (adj id) (update id gray color)
          ≡ finished color₁)
        × ((x : String) → update id black color₁ x ≡ color' x)
  unfolding visit
  visit-finished fuel id color color' done =
      elim (Search-cases (visit_next (visit adj fuel) (adj id) (update id gray color))) [
        | inl (color₁, fine) ↦ (
          color₁,
          fine,
          finished_inj (update id black color₁) color' (ground (arith, fine, done)),
        )
        | inr (inl (x, found)) ↦ absurd (ground (arith, found, done))
        | inr (inr empty) ↦ absurd (ground (arith, empty, done))
      ]

  pub visit_nodes-finished :
      {T : Types} (fuel : ℕ) (n : Node T) (ns : List (Node T)) (color color' : String → Color)
      → visit_nodes adj fuel (n ∷ ns) color ≡ finished color'
      → ((color₁ : String → Color) × (color n.id ≡ white)
          × (visit adj fuel n.id color ≡ finished color₁)
          × (visit_nodes adj fuel ns color₁ ≡ finished color'))
        ⊎ ((color n.id ≢ white) × (visit_nodes adj fuel ns color ≡ finished color'))
  unfolding visit_nodes
  visit_nodes-finished fuel n ns color color' done = elim (Color-cases (color n.id)) [
    | inl new ↦ elim (Search-cases (visit adj fuel n.id color)) [
      | inl (color₁, fine) ↦ inl (color₁, new, fine, ground (arith, new, fine, done))
      | inr (inl (x, found)) ↦ absurd (ground (arith, new, found, done))
      | inr (inr empty) ↦ absurd (ground (arith, new, empty, done))
    ]
    | inr (inl on_path) ↦
        inr (λ new. absurd (ground (arith, new, on_path)), ground (arith, on_path, done))
    | inr (inr old) ↦ inr (λ new. absurd (ground (arith, new, old)), ground (arith, old, done))
  ]

  -- No node turns gray, and none white.
  abbrev pub Advances : (String → Color) → (String → Color) → Type 0
  Advances color color' =
      ((x : String) → color' x ≡ gray → color x ≡ gray)
      × ((x : String) → color' x ≡ white → color x ≡ white)

  abbrev pub Advance : (String → (String → Color) → Search) → Type 0
  Advance step =
      (x : String) (color color' : String → Color)
      → step x color ≡ finished color'
      → Advances color color'

  pub visit_next-Advances :
      (step : String → (String → Color) → Search)
      → Advance step
      → (nexts : List String) (color color' : String → Color)
      → visit_next step nexts color ≡ finished color'
      → Advances color color'
  unfolding visit_next
  visit_next-Advances step steps [] color color' done =
      let same = finished_inj color color' done in ((λ x h. same x ∙ h), (λ x h. same x ∙ h))
  visit_next-Advances step steps (next ∷ rest) color color' done =
      elim (visit_next-finished step next rest color color' done) [
        | inl (color₁, new, fine, more) ↦
            let (grays, whites) = steps next color color₁ fine in
            let (grays', whites') = visit_next-Advances step steps rest color₁ color' more in
            ((λ x h. grays x (grays' x h)), (λ x h. whites x (whites' x h)))
        | inr (old, more) ↦ visit_next-Advances step steps rest color color' more
      ]

  pub visit-Advances : (fuel : ℕ) → Advance (visit adj fuel)
  visit-Advances zero id color color' done = unfold visit in cc
  visit-Advances (suc fuel) id color color' done =
      let (color₁, fine, same) = visit-finished fuel id color color' done in
      let (grays, whites) =
        visit_next-Advances (visit adj fuel) (visit-Advances fuel) (adj id) (update id gray color)
          color₁ fine in
      (
        λ x h. elim (Bool-cases (str_eq id x)) [
          | inl this ↦ absurd (ground (arith, this, h, same x))
          | inr other ↦ ground (arith, other, grays x (ground (arith, other, h, same x)))
        ],
        λ x h. elim (Bool-cases (str_eq id x)) [
          | inl this ↦ absurd (ground (arith, this, h, same x))
          | inr other ↦ ground (arith, other, whites x (ground (arith, other, h, same x)))
        ],
      )
