-- ===== src/Desktop/Types.antt =====
-- The windows of apps/dashboard/src/lib/desktop.ts, and what its operations do to one of them.
use Prim.Native.String.{String}
use home_server_interface.Base.{
  ℕ, ◌+◌, ◌-◌, ◌*◌, ◌%◌, min, max, Bool, true, false, List, [], ◌∷◌, length, Option, none, some,
  str_eq, if◌then◌else◌, ℤ, pos, sub_ℕ, max_int, min_int, negsuc,
}

pub data AppId : Type 0 where
  files apps settings storage store monitor sharing assistant file_preview : AppId

-- The literal that stands for an app.
abbrev pub literal : AppId → String
literal files = "files"
literal apps = "apps"
literal settings = "settings"
literal storage = "storage"
literal store = "store"
literal monitor = "monitor"
literal sharing = "sharing"
literal assistant = "assistant"
literal file_preview = "file-preview"

pub data SettingsSection : Type 0 where
  profile users places permissions groups updates alerting notifications secure : SettingsSection

pub record FilePreviewPayload : Type 0 where
  pub path : String
  pub name : String
  pub size : Option ℕ

pub record Size : Type 0 where
  pub w : ℕ
  pub h : ℕ

pub record Rect : Type 0 where
  pub x : ℤ
  pub y : ℤ
  pub w : ℕ
  pub h : ℕ

pub record DesktopWindow : Type 0 where
  pub id : String
  pub app_id : AppId
  pub x : ℤ
  pub y : ℤ
  pub w : ℕ
  pub h : ℕ
  pub minimized : Bool
  pub maximized : Bool
  pub prev_rect : Option Rect
  pub z_index : ℕ
  pub focus_section : Option SettingsSection
  pub focus_nonce : Option ℕ
  pub preview : Option FilePreviewPayload
  pub dirty : Option Bool

-- A window as it was stored: an older version had an app called `dashboard`.
pub data SavedWindow : Type 0 where
  current : DesktopWindow → SavedWindow
  old_dashboard : SavedWindow

abbrev pub multi_instance : List String
multi_instance = "files" ∷ "file-preview" ∷ []

abbrev pub min_w : ℕ
min_w = 320

abbrev pub min_h : ℕ
min_h = 240

abbrev pub min_visible : ℕ
min_visible = 80

unfoldable pub default_size : AppId → Size
default_size files = record { w = 860; h = 560 }
default_size apps = record { w = 760; h = 540 }
default_size settings = record { w = 860; h = 560 }
default_size storage = record { w = 900; h = 580 }
default_size store = record { w = 900; h = 600 }
default_size monitor = record { w = 860; h = 580 }
default_size sharing = record { w = 860; h = 560 }
default_size assistant = record { w = 820; h = 600 }
default_size file_preview = record { w = 760; h = 560 }

abbrev pub undirtied : DesktopWindow → DesktopWindow
undirtied win = record win { dirty = some false }

abbrev pub still_there : List SavedWindow → List DesktopWindow
still_there [] = []
still_there (current win ∷ saved) = undirtied win ∷ still_there saved
still_there (old_dashboard ∷ saved) = still_there saved

abbrev pub highest : ℕ → List DesktopWindow → ℕ
highest top [] = top
highest top (win ∷ wins) = highest (max top win.z_index) wins

unfoldable pub next_z_index : List DesktopWindow → ℕ
next_z_index wins = highest 0 wins + 1

unfoldable pub cascade_offset : List DesktopWindow → ℤ
cascade_offset wins = pos (48 + (length wins * 24) % 240)

unfoldable pub clamp_window : Size → DesktopWindow → DesktopWindow
clamp_window bounds win =
    if win.maximized
    then record win { x = pos 0; y = pos 0; w = bounds.w; h = bounds.h }
    else let w = min win.w (max bounds.w min_w) in
      let h = min win.h (max bounds.h min_h) in
      record win {
        w = w;
        h = h;
        x = min_int (max_int win.x (sub_ℕ min_visible w)) (pos (bounds.w - min_visible));
        y = min_int (max_int win.y (pos 0)) (pos (bounds.h - min_visible));
      }

-- The change of the first window that a search finds, if there is one.
abbrev pub modify_first :
    (DesktopWindow → Bool)
    → (DesktopWindow → DesktopWindow)
    → List DesktopWindow
    → List DesktopWindow
modify_first found change [] = []
modify_first found change (win ∷ wins) =
    if found win then change win ∷ wins else win ∷ modify_first found change wins

abbrev pub has_id : String → DesktopWindow → Bool
has_id id win = str_eq win.id id

abbrev pub is_app : AppId → DesktopWindow → Bool
is_app app win = str_eq (literal win.app_id) (literal app)

abbrev pub same_path : Option FilePreviewPayload → Option FilePreviewPayload → Bool
same_path (some p) (some q) = str_eq p.path q.path
same_path (some p) none = false
same_path none q = false

abbrev pub raised : ℕ → DesktopWindow → DesktopWindow
raised z win = record win { minimized = false; z_index = z }

abbrev pub next_nonce : Option ℕ → ℕ
next_nonce none = 1
next_nonce (some n) = n + 1

abbrev pub with_section : Option SettingsSection → DesktopWindow → DesktopWindow
with_section none win = win
with_section (some section) win = record win {
  focus_section = some section;
  focus_nonce = some (next_nonce win.focus_nonce);
}

unfoldable pub new_window :
    String
    → AppId
    → Option SettingsSection
    → Option FilePreviewPayload
    → List DesktopWindow
    → DesktopWindow
new_window id app section entry wins = record {
  id = id;
  app_id = app;
  x = cascade_offset wins;
  y = cascade_offset wins;
  w = (default_size app).w;
  h = (default_size app).h;
  minimized = false;
  maximized = false;
  prev_rect = none;
  z_index = next_z_index wins;
  focus_section = section;
  focus_nonce = none;
  preview = entry;
  dirty = none;
}

abbrev pub restored : Option Rect → DesktopWindow → DesktopWindow
restored none win = win
restored (some r) win = record win { x = r.x; y = r.y; w = r.w; h = r.h }

abbrev pub max_toggled : Size → DesktopWindow → DesktopWindow
max_toggled bounds win =
    if win.maximized
    then record (restored win.prev_rect win) { maximized = false; prev_rect = none }
    else record win {
      prev_rect = some (record { x = win.x; y = win.y; w = win.w; h = win.h });
      x = pos 0;
      y = pos 0;
      w = bounds.w;
      h = bounds.h;
      maximized = true;
    }

-- The larger of a natural number and an integer.
abbrev pub at_least : ℕ → ℤ → ℕ
at_least n (pos m) = max n m
at_least n (negsuc m) = n
