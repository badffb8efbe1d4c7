-- ===== src/Base/Texts.antt =====
-- Texts as JavaScript reads them: joining, slicing off a prefix, truthiness and UTF-16 length.
use Prim.Native.Nat.{ℕ, ◌+◌}
use Prim.Native.Char.{code}
use Prim.Native.String.{String, len, slice}
use Prim.Native.String
use mathlib.Core.Path.{◌≡◌, ◌∙◌, ap}
use mathlib.Core.Bool.{Bool, true, false, not}
use mathlib.Core.Option.{Option, none, some}
use text.Mathlib.Text.{◌==◌ as str_eq, starts_with}
use text.Mathlib.TextPositions.{len-append, slice-append_right, starts_with-append}
use home_server_interface.Base.Tests.{leb, if◌then◌else◌}

abbrev pub concat : String → String → String
concat s t = String.◌++◌ s t

-- `s.slice(n)` of a text whose first n bytes are ASCII
abbrev pub slice_from : String → ℕ → String
slice_from s n = slice s n (len s)

-- `!!s` of a text that may be undefined
abbrev pub truthy : Option String → Bool
truthy none = false
truthy (some s) = not (str_eq s "")

-- `s.length`: a character outside the basic plane counts for two
abbrev pub utf16_length : String → ℕ
utf16_length String.[] = 0
utf16_length (String.◌∷◌ c s) = (if leb 0x10000 (code c) then 2 else 1) + utf16_length s

pub slice_from-concat : (s t : String) → slice_from (concat s t) (len s) ≡ t
slice_from-concat s t = ap (slice (concat s t) (len s)) (len-append s t) ∙ slice-append_right s t

pub starts_with-concat : (s t : String) → starts_with (concat s t) s ≡ true
starts_with-concat s t = starts_with-append s t
