-- ===== src/Desktop/Tests.antt =====
-- A desktop with two file windows and a maximized settings window.
use home_server_interface.Base.{
  arith, true, false, List, [], ◌∷◌, map, Option, none, some, ◌≡◌, refl, pos, negsuc, All,
}
use home_server_interface.Desktop.{
  DesktopWindow, SavedWindow, current, Desktop, files, settings, Size, reload, undirtied,
  clamp_to_viewport,
}
use home_server_interface.Desktop.Actions.{Action, act, open_it, mark_it, clamp_all}
use home_server_interface.Desktop.Viewport.{InView, clamp_to_viewport-InView}
use home_server_interface.Desktop.Steps.{Kept, act-Kept}
use home_server_interface.Desktop.Reload.{run, reload-run}

abbrev written : List DesktopWindow → List SavedWindow
written wins = map (λ win. current win) wins

abbrev read_back : List SavedWindow → Option (List SavedWindow)
read_back saved = some saved

abbrev far_away : DesktopWindow
far_away = record {
  id = "a";
  app_id = files;
  x = negsuc 2999;
  y = pos 4000;
  w = 860;
  h = 560;
  minimized = false;
  maximized = false;
  prev_rect = none;
  z_index = 1;
  focus_section = none;
  focus_nonce = none;
  preview = none;
  dirty = some true;
}

abbrev full_screen : DesktopWindow
full_screen = record far_away {
  id = "b";
  app_id = settings;
  maximized = true;
  prev_rect = some (record { x = pos 40; y = pos 40; w = 860; h = 560 });
  z_index = 2;
}

abbrev two_windows : Desktop (List SavedWindow)
two_windows = record {
  windows = far_away ∷ full_screen ∷ [];
  desktop_mode = true;
  stored = some (written (far_away ∷ full_screen ∷ []));
  stored_mode = some "1";
}

abbrev phone : Size
phone = record { w = 400; h = 300 }

two_windows-Kept : Kept two_windows.windows
two_windows-Kept = (
  (((refl, omega arith, refl), tt), (tt, tt)),
  ((omega arith, omega arith), ((omega arith, omega arith), tt)),
)

clamp_to_viewport-InView_example :
    All (InView phone) (clamp_to_viewport written phone two_windows).windows
clamp_to_viewport-InView_example =
    clamp_to_viewport-InView written phone two_windows
      ((omega arith, omega arith), ((omega arith, omega arith), tt))

act-Kept_example : Kept (act written (open_it "c" settings none) two_windows).windows
act-Kept_example =
    act-Kept written (open_it "c" settings none) two_windows two_windows-Kept (refl, (refl, tt))

abbrev some_actions : List Action
some_actions = open_it "c" files none ∷ mark_it "c" true ∷ clamp_all phone ∷ []

reload-run_example :
    reload read_back (run written read_back some_actions (reload read_back two_windows))
    ≡ record (run written read_back some_actions (reload read_back two_windows)) {
      windows =
          map undirtied (run written read_back some_actions (reload read_back two_windows)).windows;
    }
reload-run_example = reload-run written read_back (λ wins. refl) some_actions two_windows
