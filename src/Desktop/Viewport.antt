-- ===== src/Desktop/Viewport.antt =====
-- Windows stay large enough, and a clamped desktop keeps each of them within reach.
use home_server_interface.Base.{
  arith, ℕ, ◌-◌, ◌≤◌, min, max, Bool, true, false, List, [], ◌∷◌, map, Option, none, some, ℤ, pos,
  negsuc, sub_ℕ, min_int, max_int, ◌≤ℤ◌, ◌≡◌, All, Bool-cases, inl, inr,
}
use home_server_interface.Desktop.{
  DesktopWindow, Size, Rect, Desktop, min_w, min_h, min_visible, clamp_window, clamp_to_viewport,
}

-- A window is at least of the smallest size, or, if it is maximized, will be once restored.
abbrev pub SizedAs : Bool → Option Rect → ℕ → ℕ → Type 0
SizedAs false prev w h = (min_w ≤ w) × (min_h ≤ h)
SizedAs true (some r) w h = (min_w ≤ r.w) × (min_h ≤ r.h)
SizedAs true none w h = 1 ≤ 0

abbrev pub Sized : DesktopWindow → Type 0
Sized win = SizedAs win.maximized win.prev_rect win.w win.h

-- A maximized window fills the bounds; any other is no larger than they are, or than the smallest
-- size, and at least `min_visible` of its width and of the bounds' height can be reached.
abbrev pub InViewAs : Bool → Size → ℤ → ℤ → ℕ → ℕ → Type 0
InViewAs true bounds x y w h = (x ≡ pos 0) × (y ≡ pos 0) × (w ≡ bounds.w) × (h ≡ bounds.h)
InViewAs false bounds x y w h =
    (w ≤ max bounds.w min_w)
    × (h ≤ max bounds.h min_h)
    × (sub_ℕ min_visible w ≤ℤ x)
    × (x ≤ℤ pos (bounds.w - min_visible))
    × (pos 0 ≤ℤ y)
    × (y ≤ℤ pos (bounds.h - min_visible))

abbrev pub InView : Size → DesktopWindow → Type 0
InView bounds win = InViewAs win.maximized bounds win.x win.y win.w win.h

clamp-le : (x low : ℤ) (b : ℕ) → min_int (max_int x low) (pos b) ≤ℤ pos b
clamp-le (pos n) (pos m) b = omega arith
clamp-le (pos n) (negsuc m) b = omega arith
clamp-le (negsuc n) (pos m) b = omega arith
clamp-le (negsuc n) (negsuc m) b = omega arith

low_int : (low x : ℤ) (b : ℕ) → low ≤ℤ pos 0 → low ≤ℤ min_int (max_int x low) (pos b)
low_int (pos m) (pos n) b le = omega arith
low_int (pos m) (negsuc n) b le = omega arith
low_int (negsuc m) (pos n) b le = omega arith
low_int (negsuc m) (negsuc n) b le = omega arith

sub_ℕ-le : (a b : ℕ) → a ≤ b → sub_ℕ a b ≤ℤ pos 0
sub_ℕ-le a b le = ground (arith, le)

clamp_window-InView :
    (bounds : Size) (win : DesktopWindow) → Sized win → InView bounds (clamp_window bounds win)
unfolding clamp_window
clamp_window-InView bounds win sized = elim (Bool-cases win.maximized) [
  | inl m ↦ ground (arith, m)
  | inr m ↦
      let (wide, high) = rw (m) at sized in
      let w = min win.w (max bounds.w min_w) in
      rw (m) (
        omega arith,
        omega arith,
        low_int (sub_ℕ min_visible w) win.x (bounds.w - min_visible)
            (sub_ℕ-le min_visible w (omega arith)),
        clamp-le win.x (sub_ℕ min_visible w) (bounds.w - min_visible),
        low_int (pos 0) win.y (bounds.h - min_visible) (omega arith),
        clamp-le win.y (pos 0) (bounds.h - min_visible),
      )
]

-- A change of the desktop's bounds leaves every window within reach of them: a maximized window
-- fills them; any other is no larger than they are (or than the smallest size), has at least 80
-- pixels right of their left edge, has its left edge at least 80 pixels left of their right one
-- (or at 0 in bounds narrower than that), and its upper edge likewise, and at 0 or below. Each
-- window has to be of the smallest size at least, or to be restored to that if it is maximized.
pub clamp_to_viewport-InView :
    {Json : Type 0} (stringify : List DesktopWindow → Json) (bounds : Size) (d : Desktop Json)
    → All Sized d.windows
    → All (InView bounds) (clamp_to_viewport stringify bounds d).windows
unfolding clamp_to_viewport
clamp_to_viewport-InView stringify bounds d sized = all_in_view d.windows sized
  where
    all_in_view :
        (wins : List DesktopWindow)
        → All Sized wins
        → All (InView bounds) (map (clamp_window bounds) wins)
    all_in_view [] big = tt
    all_in_view (win ∷ wins) big = (clamp_window-InView bounds win big.0, all_in_view wins big.1)
