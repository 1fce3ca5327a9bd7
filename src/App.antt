-- ===== src/App.antt =====
-- The app window of crates/xous-app-signal/src/gam_app.rs: its screens, its state and the commands
-- and events that it exchanges with the worker (crates/xous-signal-worker/src/cmd.rs). Drawing,
-- modals' texts and logging are left out; the handlers of keys and events are in the children.
pub mod Keys
pub mod Events
pub mod Guards
pub mod Total
pub mod Session
pub mod Forgetting
mod Examples
use xous_app_signal.Prelude.{
  ℕ, suc, ◌+◌, ◌-◌, ◌%◌, Bool, true, false, ◌&&◌, ◌||◌, Option, none, some, Text, List, [], ◌∷◌,
  length, leb, nat_beq, if◌then◌else◌, Result,
}
use xous_app_signal.Labels.{utf8_len}
use xous_app_signal.Dialogue.{Uuid}
use xous_app_signal.MessageStore.{MessageStore, clear}

pub data NextScreenAfterInternet : Type 0 where
  link home : NextScreenAfterInternet

pub data LinkedKind : Type 0 where
  success failure : LinkedKind

pub data Screen : Type 0 where
  menu about linking wiping home settings profile help : Screen
  linked : LinkedKind → Screen
  thread : Uuid → Screen
  no_internet : NextScreenAfterInternet → Text → Screen

pub data MenuItem : Type 0 where
  link about help wipe_settings : MenuItem

pub data SettingsItem : Type 0 where
  profile help about logout : SettingsItem

pub record App : Type 0 where
  pub screen : Screen
  pub selected : MenuItem
  pub is_linked : Bool
  pub store : MessageStore
  pub home_focus : ℕ
  pub compose_buffer : Text
  pub last_status : Text
  pub linking_in_progress : Bool
  pub settings_selected : SettingsItem
  pub account_device_name : Option Text
  pub account_aci : Option Text
  pub account_phone : Option Text
  pub account_query_pending : Bool
  pub username_lookup_in_progress : Bool
  pub username_lookup_pending : Option Text

pub data Cmd : Type 0 where
  hello get_whoami link_cancel start_receive get_account_info sync_contacts logout shutdown : Cmd
  link_device : Text → Cmd
  send_message : Text → Text → ℕ → Cmd
  resolve_username : Text → Cmd

pub record AccountInfoData : Type 0 where
  pub device_name : Text
  pub aci : Text
  pub phone : Text

-- The payload of `Event::Message`.
pub record Inbound : Type 0 where
  pub sender : Text
  pub sender_phone : Option Text
  pub sender_name : Option Text
  pub body : Text
  pub timestamp : ℕ
  pub group_master_key : Option Text

pub data Event : Type 0 where
  pong stale_store_detected receive_started sync_complete logged_out shutting_down : Event
  whoami : Result Text Text → Event
  link_url link_error receive_error sync_error signal_auth_expired signal_conflicting_device :
      Text → Event
  link_complete : AccountInfoData → Event
  account_info : Result AccountInfoData Text → Event
  message : Inbound → Event
  send_complete : ℕ → Event
  send_error : Text → Option ℕ → Event
  contact_resolved : Uuid → Text → Event
  username_resolve_result : Result (Option Uuid) Text → Event

-- What one run of a handler leaves: the state and the commands that the channel took; `none` is a panic.
abbrev pub Step : Type 0
Step = Option (App × List Cmd)

abbrev pub done : App → Step
done app = some (app, [])

unfoldable pub reset_to_unlinked : App → App
reset_to_unlinked app = record app {
  is_linked = false;
  store = clear app.store;
  home_focus = 0;
  compose_buffer = [];
  linking_in_progress = false;
  username_lookup_in_progress = false;
  username_lookup_pending = none;
  account_device_name = none;
  account_aci = none;
  account_phone = none;
  screen = Screen.menu;
  selected = MenuItem.link;
}

unfoldable pub menu_items : App → List (Option MenuItem)
menu_items app =
    if app.is_linked
    then some MenuItem.about ∷ some MenuItem.help ∷ none ∷ none ∷ []
    else some MenuItem.link
      ∷ some MenuItem.about
      ∷ some MenuItem.help
      ∷ some MenuItem.wipe_settings
      ∷ []

-- `iter().flatten()`
unfoldable pub flatten : List (Option MenuItem) → List MenuItem
flatten [] = []
flatten (none ∷ items) = flatten items
flatten (some item ∷ items) = item ∷ flatten items

abbrev pub same_item : MenuItem → MenuItem → Bool
same_item MenuItem.link MenuItem.link = true
same_item MenuItem.about MenuItem.about = true
same_item MenuItem.help MenuItem.help = true
same_item MenuItem.wipe_settings MenuItem.wipe_settings = true
same_item _ _ = false

abbrev pub same_setting : SettingsItem → SettingsItem → Bool
same_setting SettingsItem.profile SettingsItem.profile = true
same_setting SettingsItem.help SettingsItem.help = true
same_setting SettingsItem.about SettingsItem.about = true
same_setting SettingsItem.logout SettingsItem.logout = true
same_setting _ _ = false

-- `iter().position(..).unwrap_or(0)`, where the test is true of some element, from an index on.
unfoldable pub position {ℓ} : {A : Type ℓ} → (A → Bool) → List A → ℕ → ℕ
position test [] i = 0
position test (x ∷ xs) i = if test x then i else position test xs (suc i)

unfoldable pub nth {ℓ} : {A : Type ℓ} → List A → ℕ → Option A
nth [] i = none
nth (x ∷ xs) i = if nat_beq i 0 then some x else nth xs (i - 1)

-- The two values of `delta`, and `(idx + delta).rem_euclid(len)`.
pub data Delta : Type 0 where
  up down : Delta

abbrev pub moved : Delta → ℕ → ℕ → ℕ
moved Delta.down idx len = (idx + 1) % len
moved Delta.up idx len = (idx + (len - 1)) % len

-- The cursor moves among the visible items; `visible[new]` out of range is a panic.
unfoldable pub move_among : Delta → App → List MenuItem → Option App
unfolding position nth
move_among delta app [] = some app
move_among delta app (m ∷ ms) =
    elim (nth (m ∷ ms)
      (moved delta (position (λ i. same_item i app.selected) (m ∷ ms) 0) (length (m ∷ ms)))) [
        | none ↦ none
        | some item ↦ some (record app { selected = item })
      ]

unfoldable pub move_cursor : Delta → App → Option App
unfolding menu_items flatten move_among
move_cursor delta app = move_among delta app (flatten (menu_items app))

abbrev pub settings_items : List SettingsItem
settings_items =
    SettingsItem.profile ∷ SettingsItem.help ∷ SettingsItem.about ∷ SettingsItem.logout ∷ []

unfoldable pub settings_move : Delta → App → Option App
unfolding position nth
settings_move delta app =
    elim (nth settings_items
      (moved delta (position (λ s. same_setting s app.settings_selected) settings_items 0) 4)) [
        | none ↦ none
        | some item ↦ some (record app { settings_selected = item })
      ]

-- `s.split_once('.')`
unfoldable pub split_once_dot : Text → Option (Text × Text)
split_once_dot [] = none
split_once_dot (c ∷ s) = elim (split_once_dot s) [
  | none ↦ if nat_beq c b'.' then some ([], s) else none
  | some (before, after) ↦ if nat_beq c b'.' then some ([], s) else some (c ∷ before, after)
]

abbrev pub is_ascii_digit : ℕ → Bool
is_ascii_digit c = leb b'0' c && leb c b'9'

abbrev pub is_nick_char : ℕ → Bool
is_nick_char c =
    is_ascii_digit c || (leb b'a' c && leb c b'z') || (leb b'A' c && leb c b'Z') || nat_beq c b'_'

unfoldable pub all_chars : (ℕ → Bool) → Text → Bool
all_chars test [] = true
all_chars test (c ∷ s) = test c && all_chars test s

abbrev pub in_range : ℕ → ℕ → ℕ → Bool
in_range low high n = leb low n && leb n high

unfoldable pub looks_like_signal_username : Text → Bool
unfolding split_once_dot all_chars
looks_like_signal_username s = elim (split_once_dot s) [
  | none ↦ false
  | some (nick, rest) ↦
      in_range 3 32 (utf8_len nick)
      && all_chars is_nick_char nick
      && in_range 2 9 (utf8_len rest)
      && all_chars is_ascii_digit rest
]
