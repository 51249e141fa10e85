-- ===== src/Hook.antt =====
-- The manager of hooks (hook/manager.go). Hooks act on a world `W`, and their types of events are
-- compared as texts. `poll` says that the context is done. A nil manager is one without hooks.
mod Rollback
mod Tests
use vagent.Common.{
  String, str_eq, Bool, true, false, ◌||◌, List, [], ◌∷◌, ◌++◌, Option, none, some, if◌then◌else◌,
}

pub record Hook (E : Type 0) (W : Type 0) : Type 0 where
  pub filter : List String
  -- An error is logged.
  pub on_event : E → W → W

pub record AsyncHook (E X : Type 0) (W : Type 0) : Type 0 where
  pub filter : List String
  -- The send to the channel: `none` when it is full.
  pub offer : E → W → Option W
  pub start : W → Option X × W
  pub stop : W → Option X × W

pub record Manager (E X : Type 0) (W : Type 0) : Type 0 where
  pub sync_hooks : List (Hook E W)
  pub async_hooks : List (AsyncHook E X W)

abbrev pub new_manager : {E X W : Type 0} → Manager E X W
new_manager = record { sync_hooks = []; async_hooks = [] }

abbrev pub contains : List String → String → Bool
contains [] x = false
contains (y ∷ ys) x = str_eq y x || contains ys x

unfoldable pub matches : List String → String → Bool
matches [] event_type = true
matches (f ∷ fs) event_type = contains (f ∷ fs) event_type

module _ {E W : Type 0} (poll : W → Bool) (event_type : String) (event : E) where
  -- The loop over the synchronous hooks, and whether the context stayed live.
  unfoldable pub dispatch_sync : List (Hook E W) → W → Bool × W
  unfolding matches
  dispatch_sync [] w = (true, w)
  dispatch_sync (h ∷ hs) w =
      let next = if matches h.filter event_type then h.on_event event w else w in
      let rest = dispatch_sync hs next in if poll w then (false, w) else rest

module _ {E X W : Type 0} where
  abbrev pub register : List (Hook E W) → Manager E X W → Manager E X W
  register hooks m = record m { sync_hooks = m.sync_hooks ++ hooks }

  abbrev pub register_async : List (AsyncHook E X W) → Manager E X W → Manager E X W
  register_async hooks m = record m { async_hooks = m.async_hooks ++ hooks }

  module _ (poll : W → Bool) (event_type : String) (event : E) where
    abbrev pub offer_or_drop : AsyncHook E X W → W → W
    offer_or_drop h w = elim (h.offer event w) [ none ↦ w | some w' ↦ w' ]

    unfoldable pub dispatch_async : List (AsyncHook E X W) → W → W
    unfolding matches
    dispatch_async [] w = w
    dispatch_async (h ∷ hs) w =
        let next = if matches h.filter event_type then offer_or_drop h w else w in
        let rest = dispatch_async hs next in if poll w then w else rest

    unfoldable pub dispatch : Manager E X W → W → W
    unfolding dispatch_sync dispatch_async
    dispatch m w =
        let (live, w') = dispatch_sync poll event_type event m.sync_hooks w in
        if live then dispatch_async m.async_hooks w' else w'

  -- The rollback: the hooks are stopped, the last one started first, whatever they answer.
  unfoldable pub stop_started : List (AsyncHook E X W) → W → W
  stop_started [] w = w
  stop_started (h ∷ hs) w = stop_started hs (h.stop w).1

  -- The loop of `Start`, with the hooks started so far, the last one first.
  unfoldable pub start_hooks : List (AsyncHook E X W) → List (AsyncHook E X W) → W → Option X × W
  unfolding stop_started
  start_hooks started [] w = (none, w)
  start_hooks started (h ∷ hs) w =
      let (problem, w') = h.start w in
      elim problem [
        | some e ↦ (some e, stop_started started w')
        | none ↦ start_hooks (h ∷ started) hs w'
      ]

  unfoldable pub start : Manager E X W → W → Option X × W
  unfolding start_hooks
  start m w = start_hooks [] m.async_hooks w

  unfoldable pub stop_hooks : List (AsyncHook E X W) → W → List X × W
  stop_hooks [] w = ([], w)
  stop_hooks (h ∷ hs) w =
      let (problem, w') = h.stop w in
      let (errs, w'') = stop_hooks hs w' in (elim problem [ none ↦ errs | some e ↦ e ∷ errs ], w'')

  -- The errors of the hooks that did not stop; `errors.Join` of none is nil.
  unfoldable pub stop : Manager E X W → W → List X × W
  unfolding stop_hooks
  stop m w = stop_hooks m.async_hooks w
