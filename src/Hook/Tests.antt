-- ===== src/Hook/Tests.antt =====
-- Hooks that log their starts (hook/manager.go).
use vagent.Common.{ℕ, ◌≡◌, ◌⊎◌, refl, String, List, [], ◌∷◌, ◌++◌, none, some}
use vagent.Hook.{AsyncHook, Manager, register_async, new_manager, start}
use vagent.Hook.Rollback.{Call, started, stopped, IsLogged, hooks, starts, stops, back, start-log}

abbrev hook : String → AsyncHook ℕ ℕ (List Call)
hook name = record {
  filter = [];
  offer = λ e w. none;
  start = λ w. (none, started name ∷ w);
  stop = λ w. (some 7, stopped name ∷ w);
}

abbrev broken : AsyncHook ℕ ℕ (List Call)
broken = record (hook "c") { start = λ w. (some 5, w) }

hook-IsLogged : (name : String) → IsLogged (λ w. w) (hook name) name
hook-IsLogged name = record {
  logs_start = λ w h. refl;
  logs_failure = λ w e h. cc;
  logs_stop = λ w. refl;
}

broken-IsLogged : IsLogged (λ w. w) broken "c"
broken-IsLogged = record {
  logs_start = λ w h. cc;
  logs_failure = λ w e h. refl;
  logs_stop = λ w. refl;
}

abbrev named : List (AsyncHook ℕ ℕ (List Call) × String)
named = (hook "a", "a") ∷ (hook "b", "b") ∷ (broken, "c") ∷ []

abbrev manager : Manager ℕ ℕ (List Call)
manager = register_async (hooks named) new_manager

rolls_back : start manager [] ≡ (some 5, stopped "a" ∷ stopped "b" ∷ started "b" ∷ started "a" ∷ [])
unfolding start
rolls_back = refl

start-log_example :
    (((start manager []).0 ≡ none) × ((start manager []).1 ≡ starts named []))
    ⊎ ((before after : List (AsyncHook ℕ ℕ (List Call) × String)) × (h : AsyncHook ℕ ℕ (List Call)
          × String)
        × (e : ℕ) × (v : List Call) × (named ≡ before ++ h ∷ after)
        × ((h.0.start v).0 ≡ some e)
        × (v ≡ starts before [])
        × ((start manager []).0 ≡ some e)
        × ((start manager []).1 ≡ stops (back before []) (starts before [])))
start-log_example =
    start-log (λ w. w) manager named [] refl
      (hook-IsLogged "a", (hook-IsLogged "b", (broken-IsLogged, tt)))
