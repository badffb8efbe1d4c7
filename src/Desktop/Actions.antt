-- ===== src/Desktop/Actions.antt =====
-- The operations that `useDesktop` returns, as the actions of a page.
use Prim.Native.String.{String}
use home_server_interface.Base.{Bool, List, Option, ℤ}
use home_server_interface.Desktop.{
  AppId, SettingsSection, FilePreviewPayload, DesktopWindow, Size, Desktop, open_app,
  open_file_preview, close_window, set_dirty, focus_window, toggle_minimize, toggle_maximize,
  move_window, resize_window, clamp_to_viewport, set_desktop_mode,
}

-- What opens a window carries the new window's id.
pub data Action : Type 0 where
  open_it : String → AppId → Option SettingsSection → Action
  preview_it : String → FilePreviewPayload → Action
  close_it : String → Action
  mark_it : String → Bool → Action
  focus_it : String → Action
  minimize_it : String → Action
  maximize_it : String → Size → Action
  move_it : String → ℤ → ℤ → Action
  resize_it : String → ℤ → ℤ → Action
  clamp_all : Size → Action
  set_mode : Bool → Action

module _ {Json : Type 0} (stringify : List DesktopWindow → Json) where
  abbrev pub act : Action → Desktop Json → Desktop Json
  act (open_it id app section) d = open_app stringify id app section d
  act (preview_it id entry) d = open_file_preview stringify id entry d
  act (close_it id) d = close_window stringify id d
  act (mark_it id dirty) d = set_dirty id dirty d
  act (focus_it id) d = focus_window stringify id d
  act (minimize_it id) d = toggle_minimize stringify id d
  act (maximize_it id bounds) d = toggle_maximize stringify id bounds d
  act (move_it id x y) d = move_window stringify id x y d
  act (resize_it id w h) d = resize_window stringify id w h d
  act (clamp_all bounds) d = clamp_to_viewport stringify bounds d
  act (set_mode on) d = set_desktop_mode on d
