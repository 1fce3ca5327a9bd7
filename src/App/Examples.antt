-- ===== src/App/Examples.antt =====
-- Runs of the app window, and the theorems at concrete states.
use xous_app_signal.Prelude.{
  ℕ, ◌<◌, ◌≡◌, refl, Bool, true, false, Option, none, some, Text, codes, List, [], ◌∷◌, nat_eq, ok,
  arith,
}
use xous_app_signal.Collections.HashMap.{insertion_order}
use xous_app_signal.Dialogue.{Uuid, rebuild_summaries}
use xous_app_signal.MessageStore.{is_group_thread, push_outgoing_pending}
use xous_app_signal.App.{
  App, Screen, Cmd, MenuItem, SettingsItem, Event, looks_like_signal_username, split_once_dot,
  all_chars, move_cursor, Delta, move_among, menu_items, flatten, position, nth,
}
use xous_app_signal.App.Keys.{World, handle_key, on_screen, thread_key, send_compose}
use xous_app_signal.App.Guards.{Permitted, handle_key-AllPermitted}
use xous_app_signal.App.Total.{IsWell}
use xous_app_signal.App.Session.{Input, key, worker, run, Ends, run_session_total}
use xous_app_signal.App.Forgetting.{logout, Stays, logout-forgets}
use xous_app_signal.Labels.{utf8_len}

-- Stand-ins for the services of the `uuid` crate and of the standard library.
abbrev simple : Uuid → Text
simple u = codes "0123456789abcdef0011223344556677"

abbrev parse_uuid : Text → Option Uuid
parse_uuid s = none

abbrev new_v5 : Text → Uuid
new_v5 name = 7

abbrev no_letters : ℕ → Bool
no_letters c = false

abbrev world : World
world = record {
  internet = ok tt;
  modals = ok tt;
  typed = ok (codes "Yes");
  sends = true;
  send_error = [];
  now = 1000;
  default_name = codes "xas";
}

abbrev boot : App
boot = record {
  screen = Screen.menu;
  selected = MenuItem.help;
  is_linked = false;
  store = record { messages = []; dialogues = []; capacity = 5 };
  home_focus = 0;
  compose_buffer = [];
  last_status = [];
  linking_in_progress = false;
  settings_selected = SettingsItem.profile;
  account_device_name = none;
  account_aci = none;
  account_phone = none;
  account_query_pending = false;
  username_lookup_in_progress = false;
  username_lookup_pending = none;
}

username : looks_like_signal_username (codes "alice.42") ≡ true
unfolding looks_like_signal_username split_once_dot all_chars utf8_len
username = refl

short_nick : looks_like_signal_username (codes "al.42") ≡ false
unfolding looks_like_signal_username split_once_dot all_chars utf8_len
short_nick = refl

-- Up from the first item is the last.
wraps :
    move_cursor Delta.up (record boot { selected = MenuItem.link })
    ≡ some (record boot { selected = MenuItem.wipe_settings })
unfolding move_cursor move_among menu_items flatten position nth
wraps = refl

-- A thread with a text to send.
abbrev composing : App
composing = record boot { screen = Screen.thread 1; compose_buffer = codes "hi" }

-- Enter sends the text to the thread's contact: one command, and it is permitted.
handle_key-AllPermitted_example :
    Permitted simple world composing (Cmd.send_message (simple 1) (codes "hi") 1000) × Unit {0}
unfolding handle_key on_screen thread_key send_compose is_group_thread push_outgoing_pending
handle_key-AllPermitted_example =
    handle_key-AllPermitted simple no_letters parse_uuid simple insertion_order world composing 0xd

five : 0 < 5
five = omega arith

boot-IsWell : IsWell simple insertion_order 5 five boot.store
unfolding rebuild_summaries
boot-IsWell = (record { fixed = refl; within = omega arith }, refl)

-- A message, a key press and a logout.
abbrev inputs : List Input
inputs =
    worker world (Event.receive_error (codes "closed"))
    ∷ key world 0x2193
    ∷ worker world Event.logged_out
    ∷ []

run_session_total_example :
    Ends simple insertion_order no_letters parse_uuid simple new_v5 5
      (run simple insertion_order no_letters parse_uuid simple new_v5 inputs boot)
run_session_total_example =
    run_session_total simple insertion_order no_letters parse_uuid simple new_v5 5 five inputs boot
      boot-IsWell

logout-forgets_example : Stays (
    run simple insertion_order no_letters parse_uuid simple new_v5
      (worker world Event.logged_out ∷ key world 0xd ∷ [])
      (record boot { is_linked = true }))
logout-forgets_example =
    logout-forgets simple insertion_order no_letters parse_uuid simple new_v5 world
      (record boot { is_linked = true }) Event.logged_out (key world 0xd ∷ []) logout (refl, tt)
