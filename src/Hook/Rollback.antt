-- ===== src/Hook/Rollback.antt =====
-- What `Start` leaves behind (hook/manager.go).
use vagent.Common.{
  ◌≡◌, ◌∙◌, ap, refl, String, List, [], ◌∷◌, ◌++◌, none, some, Option-cases, arith, inl, inr, ◌⊎◌,
}
use vagent.Hook.{AsyncHook, Manager, stop_started, start_hooks, start}

pub data Call : Type 0 where
  started stopped : String → Call

module _ {E X W : Type 0} where
  abbrev pub hooks : List (AsyncHook E X W × String) → List (AsyncHook E X W)
  hooks [] = []
  hooks ((h, name) ∷ hs) = h ∷ hooks hs

  abbrev pub starts : List (AsyncHook E X W × String) → List Call → List Call
  starts [] calls = calls
  starts ((h, name) ∷ hs) calls = starts hs (started name ∷ calls)

  -- The hooks, the last one first.
  abbrev pub back :
      List (AsyncHook E X W × String)
      → List (AsyncHook E X W × String)
      → List (AsyncHook E X W × String)
  back [] done = done
  back (h ∷ hs) done = back hs (h ∷ done)

  abbrev pub stops : List (AsyncHook E X W × String) → List Call → List Call
  stops [] calls = calls
  stops ((h, name) ∷ hs) calls = stops hs (stopped name ∷ calls)

module _ {E X W : Type 0} (log : W → List Call) where
  -- The calls of a hook that succeed are logged, in order, under its name.
  pub record IsLogged (h : AsyncHook E X W) (name : String) : Type 0 where
    pub logs_start : (w : W) → (h.start w).0 ≡ none → log (h.start w).1 ≡ started name ∷ log w
    pub logs_failure : (w : W) (e : X) → (h.start w).0 ≡ some e → log (h.start w).1 ≡ log w
    pub logs_stop : (w : W) → log (h.stop w).1 ≡ stopped name ∷ log w

  -- Hooks with their names.
  abbrev pub AllLogged : List (AsyncHook E X W × String) → Type 0
  AllLogged [] = Unit
  AllLogged ((h, name) ∷ hs) = IsLogged h name × AllLogged hs

  stop_started-log :
      (hs : List (AsyncHook E X W × String)) (w : W)
      → AllLogged hs
      → log (stop_started (hooks hs) w) ≡ stops hs (log w)
  unfolding stop_started
  stop_started-log [] w all = refl
  stop_started-log ((h, name) ∷ hs) w all =
      stop_started-log hs (h.stop w).1 all.1 ∙ ap (stops hs) (all.0.logs_stop w)

  start_hooks-log :
      (done hs : List (AsyncHook E X W × String)) (w : W)
      → AllLogged done
      → AllLogged hs
      → (((start_hooks (hooks done) (hooks hs) w).0 ≡ none)
          × (log (start_hooks (hooks done) (hooks hs) w).1 ≡ starts hs (log w)))
        ⊎ ((before after : List (AsyncHook E X W × String)) × (h : AsyncHook E X W × String)
            × (e : X) × (v : W) × (hs ≡ before ++ h ∷ after)
            × ((h.0.start v).0 ≡ some e)
            × (log v ≡ starts before (log w))
            × ((start_hooks (hooks done) (hooks hs) w).0 ≡ some e)
            × (log (start_hooks (hooks done) (hooks hs) w).1
                ≡ stops (back before done) (starts before (log w))))
  unfolding start_hooks
  start_hooks-log done [] w old all = inl (refl, refl)
  start_hooks-log done ((h, name) ∷ hs) w old all = elim (Option-cases (h.start w).0) [
    | inr (e, broke) ↦ inr (
      [],
      hs,
      (h, name),
      e,
      w,
      refl,
      broke,
      refl,
      ground (arith, broke),
      let rolled : (start_hooks (hooks done) (h ∷ hooks hs) w).1
              ≡ stop_started (hooks done) (h.start w).1 =
            ground (arith, broke) in
          ap log rolled
          ∙ stop_started-log done (h.start w).1 old
          ∙ ap (stops done) (all.0.logs_failure w e broke),
    )
    | inl fine ↦
        let same : start_hooks (hooks done) (h ∷ hooks hs) w
            ≡ start_hooks (h ∷ hooks done) (hooks hs) (h.start w).1 =
          ground (arith, fine) in
        let logged = all.0.logs_start w fine in
        elim (start_hooks-log ((h, name) ∷ done) hs (h.start w).1 (all.0, old) all.1) [
          | inl (ends, calls) ↦ inl (rw same ends, rw same (calls ∙ ap (starts hs) logged))
          | inr (before, after, k, e, v, split, fails, so_far, ends, calls) ↦ inr (
            (h, name) ∷ before,
            after,
            k,
            e,
            v,
            ap (λ r. (h, name) ∷ r) split,
            fails,
            so_far ∙ ap (starts before) logged,
            rw same ends,
            rw same
                (calls ∙ ap (λ c. stops (back before ((h, name) ∷ done)) (starts before c)) logged),
          )
        ]
  ]

  -- `Start` starts every asynchronous hook in order, or, when one fails, it has started those
  -- before it and stopped them again, the last one first, and it returns the error with which the
  -- start of that hook failed once those before it were started. The hooks log their starts and
  -- stops, the latest call first.
  pub start-log :
      (m : Manager E X W) (hs : List (AsyncHook E X W × String)) (w : W)
      → m.async_hooks ≡ hooks hs
      → AllLogged hs
      → (((start m w).0 ≡ none) × (log (start m w).1 ≡ starts hs (log w)))
        ⊎ ((before after : List (AsyncHook E X W × String)) × (h : AsyncHook E X W × String)
            × (e : X) × (v : W) × (hs ≡ before ++ h ∷ after)
            × ((h.0.start v).0 ≡ some e)
            × (log v ≡ starts before (log w))
            × ((start m w).0 ≡ some e)
            × (log (start m w).1 ≡ stops (back before []) (starts before (log w))))
  unfolding start
  start-log m hs w named all = rw named (start_hooks-log [] hs w tt all)
