-- ===== src/Desktop/Operations.antt =====
-- The operations of apps/dashboard/src/lib/desktop.ts, and what the browser keeps of the desktop.
use Prim.Native.String.{String}
use home_server_interface.Base.{
  Bool, false, not, ◌&&◌, List, [], ◌∷◌, ◌++◌, map, mem, filter, find, Option, none, some, str_eq,
  if◌then◌else◌, ℤ, is_some,
}
use home_server_interface.Desktop.Types.{
  AppId, literal, SettingsSection, FilePreviewPayload, Size, DesktopWindow, SavedWindow,
  multi_instance, min_w, min_h, still_there, next_z_index, clamp_window, modify_first, has_id,
  is_app, same_path, raised, with_section, new_window, max_toggled, at_least, file_preview,
}

-- The page's state, with what `localStorage` holds under its two keys.
pub record Desktop (Json : Type 0) : Type 0 where
  pub windows : List DesktopWindow
  pub desktop_mode : Bool
  pub stored : Option Json
  pub stored_mode : Option String

abbrev pub load_desktop_mode : Option String → Bool
load_desktop_mode none = false
load_desktop_mode (some mode) = str_eq mode "1"

-- `parse` is `JSON.parse` with none for what throws or is no array.
module _ {Json : Type 0} (parse : Json → Option (List SavedWindow)) where
  abbrev pub parsed_windows : Option (List SavedWindow) → List DesktopWindow
  parsed_windows none = []
  parsed_windows (some saved) = still_there saved

  unfoldable pub load_windows : Option Json → List DesktopWindow
  load_windows none = []
  load_windows (some raw) = parsed_windows (parse raw)

  -- The page is opened: both parts are read back.
  unfoldable pub reload : Desktop Json → Desktop Json
  reload d = record d {
    windows = load_windows d.stored;
    desktop_mode = load_desktop_mode d.stored_mode;
  }

abbrev pub shows : FilePreviewPayload → DesktopWindow → Bool
shows entry win = is_app file_preview win && same_path win.preview (some entry)

module _ {Json : Type 0} where
  -- Not written: what is unsaved in a window does not outlive the page.
  unfoldable pub set_dirty : String → Bool → Desktop Json → Desktop Json
  set_dirty id dirty d = record d {
    windows = modify_first (has_id id) (λ win. record win { dirty = some dirty }) d.windows;
  }

  unfoldable pub set_desktop_mode : Bool → Desktop Json → Desktop Json
  set_desktop_mode on d = record d {
    desktop_mode = on;
    stored_mode = some (if on then "1" else "0");
  }

-- `stringify` is `JSON.stringify` on windows.
module _ {Json : Type 0} (stringify : List DesktopWindow → Json) where
  -- The windows are changed and written.
  abbrev pub persist : List DesktopWindow → Desktop Json → Desktop Json
  persist wins d = record d { windows = wins; stored = some (stringify wins) }

  -- The operations that look for a window change nothing if there is none.
  abbrev pub change_window : String → (DesktopWindow → DesktopWindow) → Desktop Json → Desktop Json
  change_window id change d =
      if is_some (find (has_id id) d.windows)
      then persist (modify_first (has_id id) change d.windows) d
      else d

  unfoldable pub focus_window : String → Desktop Json → Desktop Json
  focus_window id d = change_window id (raised (next_z_index d.windows)) d

  abbrev pub add_window :
      String
      → AppId
      → Option SettingsSection
      → Option FilePreviewPayload
      → Desktop Json
      → Desktop Json
  add_window id app section entry d =
      persist (d.windows ++ new_window id app section entry d.windows ∷ []) d

  abbrev pub focus_on : AppId → Option SettingsSection → DesktopWindow → Desktop Json → Desktop Json
  focus_on app section existing d =
      focus_window existing.id
        (record d { windows = modify_first (is_app app) (with_section section) d.windows })

  -- `id` is what `randomId` returns.
  unfoldable pub open_app : String → AppId → Option SettingsSection → Desktop Json → Desktop Json
  open_app id app section d =
      if mem (literal app) multi_instance
      then add_window id app section none d
      else elim (find (is_app app) d.windows) [
        | none ↦ add_window id app section none d
        | some existing ↦ focus_on app section existing d
      ]

  unfoldable pub close_window : String → Desktop Json → Desktop Json
  close_window id d = persist (filter (λ win. not (has_id id win)) d.windows) d

  unfoldable pub open_file_preview : String → FilePreviewPayload → Desktop Json → Desktop Json
  open_file_preview id entry d = elim (find (shows entry) d.windows) [
    | none ↦ add_window id file_preview none (some entry) d
    | some existing ↦ focus_window existing.id d
  ]

  unfoldable pub toggle_minimize : String → Desktop Json → Desktop Json
  toggle_minimize id d = change_window id (λ win. record win { minimized = not win.minimized }) d

  unfoldable pub toggle_maximize : String → Size → Desktop Json → Desktop Json
  toggle_maximize id bounds d = change_window id (max_toggled bounds) d

  unfoldable pub move_window : String → ℤ → ℤ → Desktop Json → Desktop Json
  move_window id x y d = change_window id (λ win. record win { x = x; y = y }) d

  unfoldable pub resize_window : String → ℤ → ℤ → Desktop Json → Desktop Json
  resize_window id w h d =
      change_window id (λ win. record win { w = at_least min_w w; h = at_least min_h h }) d

  unfoldable pub clamp_to_viewport : Size → Desktop Json → Desktop Json
  clamp_to_viewport bounds d = persist (map (clamp_window bounds) d.windows) d
