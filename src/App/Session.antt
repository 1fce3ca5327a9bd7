-- ===== src/App/Session.antt =====
-- A whole session of the app window: keys and worker events in any order, as the loop of `run` in
-- crates/xous-app-signal/src/gam_app.rs hands them to the handlers.
use xous_app_signal.Prelude.{
  ℕ, ◌<◌, ◌≤◌, ◌≡◌, refl, Bool, Option, none, some, Text, List, [], ◌∷◌, ◌++◌, length, nat_eq,
  arith,
}
use xous_app_signal.Collections.HashMap.{Iteration}
use xous_app_signal.Dialogue.{Uuid, DialogueSummary, rebuild_summaries}
use xous_app_signal.App.{App, Cmd, Event, Step, done}
use xous_app_signal.App.Keys.{World, and_send, handle_key}
use xous_app_signal.App.Events.{handle_worker_event}
use xous_app_signal.App.Total.{IsWell, Safe, handle_key-Safe, handle_worker_event-Safe}

pub data Input : Type 0 where
  key : World → ℕ → Input
  worker : World → Event → Input

module _ (simple : Uuid → Text) (order : Iteration Uuid DialogueSummary)
    (is_alphanumeric : ℕ → Bool) (parse_uuid : Text → Option Uuid) (to_text : Uuid → Text)
    (new_v5 : Text → Uuid) where
  unfoldable pub step : Input → App → Step
  step (key w k) app = handle_key is_alphanumeric parse_uuid to_text simple order w app k
  step (worker w event) app = handle_worker_event parse_uuid new_v5 simple order w app event

  unfoldable pub run : List Input → App → Step
  run [] app = done app
  run (input ∷ inputs) app = elim (step input app) [
    | none ↦ none
    | some (app', cmds) ↦ and_send cmds (run inputs app')
  ]

  abbrev pub Ends : ℕ → Step → Type 0
  Ends capacity result =
      (app : App) × (cmds : List Cmd) × (result ≡ some (app, cmds))
      × (length app.store.messages ≤ capacity)
      × (app.store.dialogues ≡ rebuild_summaries simple order app.store.messages)

  step-Safe :
      (capacity : ℕ) (room : 0 < capacity) (input : Input) (app : App)
      → IsWell simple order capacity room app.store
      → Safe simple order capacity room (step input app)
  unfolding step
  step-Safe capacity room (key w k) app h =
      handle_key-Safe simple order capacity room is_alphanumeric parse_uuid to_text new_v5 w app k h
  step-Safe capacity room (worker w event) app h =
      handle_worker_event-Safe simple order capacity room is_alphanumeric parse_uuid to_text new_v5
        w app event h

  Safe-cases :
      (capacity : ℕ) (room : 0 < capacity) (result : Step)
      → Safe simple order capacity room result
      → (app : App) × (cmds : List Cmd) × (result ≡ some (app, cmds))
        × IsWell simple order capacity room app.store
  Safe-cases capacity room none h = absurd h
  Safe-cases capacity room (some (app, cmds)) h = (app, cmds, refl, h)

  -- From a store in order, of any capacity but 0, every sequence of keys and worker events, whatever
  -- the system answers, runs to its end without a panic, and leaves at most `capacity` messages, with
  -- the summaries of the list those of its messages.
  pub run_session_total :
      (capacity : ℕ) (room : 0 < capacity) (inputs : List Input) (app : App)
      → IsWell simple order capacity room app.store
      → Ends capacity (run inputs app)
  unfolding run
  run_session_total capacity room [] app h = (app, [], refl, h.0.within, h.1)
  run_session_total capacity room (input ∷ inputs) app h =
      let (app', cmds, e, h') =
        Safe-cases capacity room (step input app) (step-Safe capacity room input app h) in
      let (last, more, e', within, derived) = run_session_total capacity room inputs app' h' in
      (last, cmds ++ more, ground (arith, e, e'), within, derived)
