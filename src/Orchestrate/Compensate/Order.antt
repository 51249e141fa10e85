-- ===== src/Orchestrate/Compensate/Order.antt =====
-- The loop over the queue of `topologicalSort` keeps the order and ends (orchestrate/topo.go).
use mathlib.Core.Path.{subst}
use vagent.Common.{
  ℕ, zero, suc, ◌+◌, ◌-◌, ◌≤◌, ◌<◌, ◌≡◌, sym, refl, inl, inr, String, str_eq, eq_iff, List, [], ◌∷◌,
  ◌++◌, some, length, length-append, ◌==◌, All, arith, Bool-cases,
}
use vagent.Schema.{Types}
use vagent.Orchestrate.Node.{Node, update}
use vagent.Orchestrate.Topology.{build_dag_maps}
use vagent.Orchestrate.Topology.Degrees.{
  occurrences, occurrences-append, HasDistinctIds, deps_of, build_dag_maps_lem,
}
use vagent.Orchestrate.Compensate.{release_downstream, sort_queue}
use vagent.Orchestrate.Compensate.Placed.{
  missing, missing_append, missing-All, unplaced, unplaced_lt, unplaced_move,
}

module _ {T : Types} (ns : List (Node T)) where
  -- Every node stands after all of its dependencies.
  pub data IsTopological : List String → Type 0 where
    start : IsTopological []
    after :
        {order order' : List String} (x : String)
        → IsTopological order
        → All (λ d. 0 < occurrences d order) (deps_of ns x)
        → order' ≡ order ++ x ∷ []
        → IsTopological order'

  -- The sort with downstream nodes that are still to be released.
  pub record IsSort (order queue owed : List String) (degree : String → ℕ) : Type 0 where
    pub degrees : (x : String) → degree x ≡ missing order (deps_of ns x) + occurrences x owed
    pub single : (x : String) → occurrences x queue + occurrences x order ≤ 1
    pub ready : (x : String) → 0 < occurrences x queue + occurrences x order → degree x ≡ 0

  abbrev lower : String → (String → ℕ) → String → ℕ
  lower d degree = update d (degree d - 1) degree

  -- A node that is released has dependencies that are missing, so it is not placed yet.
  IsSort-absent :
      (order queue ds : List String) (d : String) (degree : String → ℕ)
      → IsSort order queue (d ∷ ds) degree
      → (0 < degree d) × (occurrences d queue + occurrences d order ≡ 0)
  IsSort-absent order queue ds d degree s =
      let positive : 0 < degree d = ground (arith, s.degrees d, eq_iff d d) in
      (positive, ground (arith, s.ready d, positive))

  IsSort-lower :
      (order queue ds : List String) (d : String) (degree : String → ℕ)
      → IsSort order queue (d ∷ ds) degree
      → IsSort order queue ds (lower d degree)
  IsSort-lower order queue ds d degree s =
      let (positive, absent) = IsSort-absent order queue ds d degree s in
      record {
        degrees = λ x. ground (arith, s.degrees x, eq_iff d x, positive);
        single = s.single;
        ready = λ x h. ground (arith, s.ready x h, eq_iff d x, h);
      }

  IsSort-enqueue :
      (order queue ds : List String) (d : String) (degree : String → ℕ)
      → IsSort order queue ds degree
      → occurrences d queue + occurrences d order ≡ 0
      → degree d ≡ 0
      → IsSort order (queue ++ d ∷ []) ds degree
  IsSort-enqueue order queue ds d degree s absent free = record {
    degrees = s.degrees;
    single =
        λ x. ground (arith, s.single x, occurrences-append x queue (d ∷ []), absent, eq_iff d x);
    ready = λ x h. elim (Bool-cases (str_eq d x)) [
      | inl this ↦ rw (sym ((eq_iff d x).0 this)) free
      | inr other ↦ s.ready x (ground (arith, h, other, occurrences-append x queue (d ∷ [])))
    ];
  }

  release-IsSort :
      (order : List String) (ds queue : List String) (degree : String → ℕ)
      → IsSort order queue ds degree
      → let after = release_downstream ds degree queue in IsSort order after.1 [] after.0
  unfolding release_downstream
  release-IsSort order [] queue degree s = s
  release-IsSort order (d ∷ ds) queue degree s =
      let degree' = lower d degree in
      let (positive, absent) = IsSort-absent order queue ds d degree s in
      let s' = IsSort-lower order queue ds d degree s in
      elim (Bool-cases (degree' d == 0)) [
        | inr more ↦
            let same : release_downstream (d ∷ ds) degree queue
                ≡ release_downstream ds degree' queue =
              ground (arith, more) in
            rw same (release-IsSort order ds queue degree' s')
        | inl free ↦
            let same : release_downstream (d ∷ ds) degree queue
                ≡ release_downstream ds degree' (queue ++ d ∷ []) =
              ground (arith, free) in
            rw same (
              release-IsSort order ds (queue ++ d ∷ []) degree'
                (IsSort-enqueue order queue ds d degree' s' absent (ground (arith, free))))
      ]

  IsSort-pop :
      (distinct : HasDistinctIds ns) (order queue : List String) (cur : String)
      (degree : String → ℕ)
      → IsSort order (cur ∷ queue) [] degree
      → IsSort (order ++ cur ∷ []) queue ((build_dag_maps ns).0 cur) degree
  IsSort-pop distinct order queue cur degree s =
      let absent : occurrences cur order ≡ 0 = ground (arith, s.single cur, eq_iff cur cur) in
      record {
        degrees = λ x. omega (
          arith,
          s.degrees x,
          missing_append order cur (deps_of ns x) absent,
          (build_dag_maps_lem ns x cur distinct).0,
        );
        single = λ x. ground (arith, s.single x, occurrences-append x order (cur ∷ []));
        ready = λ x here. s.ready x (ground (arith, here, occurrences-append x order (cur ∷ [])));
      }

  pub sort_queue-IsTopological :
      (distinct : HasDistinctIds ns) (fuel : ℕ) (degree : String → ℕ)
      (queue order result : List String)
      → IsSort order queue [] degree
      → IsTopological order
      → sort_queue (build_dag_maps ns).0 fuel degree queue order ≡ some result
      → IsTopological result
  unfolding sort_queue
  sort_queue-IsTopological distinct fuel degree [] order result s t h =
      let same : order ≡ result = cc in subst IsTopological same t
  sort_queue-IsTopological distinct zero degree (cur ∷ queue) order result s t h = cc
  sort_queue-IsTopological distinct (suc fuel) degree (cur ∷ queue) order result s t h =
      let down = (build_dag_maps ns).0 cur in
      let zero_degree : degree cur ≡ 0 = s.ready cur (ground (arith, eq_iff cur cur)) in
      let settled : missing order (deps_of ns cur) ≡ 0 =
        omega (arith, s.degrees cur, zero_degree) in
      let next = release_downstream down degree queue in
      sort_queue-IsTopological distinct fuel next.0 next.1 (order ++ cur ∷ []) result
        (release-IsSort (order ++ cur ∷ []) down queue degree
          (IsSort-pop distinct order queue cur degree s))
        (after cur t (missing-All order (deps_of ns cur) settled) refl) h

  module _ (universe : List String) where
    release-length :
        (order : List String) (ds queue : List String) (degree : String → ℕ)
        → IsSort order queue ds degree
        → ((x : String) → 0 < occurrences x ds → 0 < occurrences x universe)
        → let after = release_downstream ds degree queue in
          length after.1 + unplaced order after.1 universe
          ≤ length queue + unplaced order queue universe
    unfolding release_downstream
    release-length order [] queue degree s known = omega arith
    release-length order (d ∷ ds) queue degree s known =
        let degree' = lower d degree in
        let (positive, absent) = IsSort-absent order queue ds d degree s in
        let s' = IsSort-lower order queue ds d degree s in
        let known' = λ (x : String) (h : 0 < occurrences x ds). known x (ground (arith, h)) in
        elim (Bool-cases (degree' d == 0)) [
          | inr more ↦
              let same : release_downstream (d ∷ ds) degree queue
                  ≡ release_downstream ds degree' queue =
                ground (arith, more) in
              rw same (release-length order ds queue degree' s' known')
          | inl free ↦
              let same : release_downstream (d ∷ ds) degree queue
                  ≡ release_downstream ds degree' (queue ++ d ∷ []) =
                ground (arith, free) in
              let less =
                unplaced_lt order queue d universe (known d (ground (arith, eq_iff d d))) absent in
              let rest =
                release-length order ds (queue ++ d ∷ []) degree'
                  (IsSort-enqueue order queue ds d degree' s' absent (ground (arith, free)))
                  known' in
              rw same (omega (arith, rest, less, length-append queue (d ∷ [])))
        ]

    pub sort_queue-some :
        (distinct : HasDistinctIds ns) (fuel : ℕ) (degree : String → ℕ) (queue order : List String)
        → IsSort order queue [] degree
        → ((x y : String)
            → 0 < occurrences y ((build_dag_maps ns).0 x)
            → 0 < occurrences y universe)
        → length queue + unplaced order queue universe ≤ fuel
        → (result : List String) × (sort_queue (build_dag_maps ns).0 fuel degree queue order
            ≡ some result)
    unfolding sort_queue
    sort_queue-some distinct fuel degree [] order s known enough = (order, refl)
    sort_queue-some distinct zero degree (cur ∷ queue) order s known enough =
        absurd (omega (arith, enough))
    sort_queue-some distinct (suc fuel) degree (cur ∷ queue) order s known enough =
        let down = (build_dag_maps ns).0 cur in
        let next = release_downstream down degree queue in
        let order' = order ++ cur ∷ [] in
        let s' = IsSort-pop distinct order queue cur degree s in
        let shorter = release-length order' down queue degree s' (known cur) in
        sort_queue-some distinct fuel next.0 next.1 order'
          (release-IsSort order' down queue degree s') known
          (omega (arith, shorter, unplaced_move order queue cur universe, enough))
