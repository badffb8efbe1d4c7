-- ===== src/Exclusions.antt =====
-- apps/backend/src/services/ai-exclusions.ts: the Places that are closed to AI assistants. The
-- package node:path is the argument `posix_normalize`; a refusal is an answer `true`.
pub mod Paths
pub mod Access
mod Tests
use Prim.Native.Char.{code}
use Prim.Native.String.{String}
use home_server_interface.Base.{
  ℕ, Bool, true, false, ◌&&◌, ◌||◌, not, List, [], ◌∷◌, ◌++◌, Option, none, some, str_eq,
  starts_with, concat, utf16_length, if◌then◌else◌, ltb, ◌==◌, length, any, mem,
}

pub record Exclusions : Type 0 where
  pub ids : List String
  pub paths : List String

-- The arguments of a tool that name files, folders and a Place, where they are texts.
pub record Args : Type 0 where
  pub path : Option String
  pub parent_path : Option String
  pub src : Option String
  pub dst_dir : Option String
  pub paths : List String
  pub place_id : Option String

-- `n.replace(/\/+$/, "")`
unfoldable pub strip_slashes : String → String
strip_slashes String.[] = ""
strip_slashes (String.◌∷◌ c s) =
    let rest = strip_slashes s in
    if (code c == b'/') && str_eq rest "" then "" else String.◌∷◌ c rest

unfoldable pub within : String → String → Bool
within child parent =
    str_eq child parent || starts_with child (if str_eq parent "/" then "/" else concat parent "/")

abbrev pub cons_some : Option String → List String → List String
cons_some none xs = xs
cons_some (some x) xs = x ∷ xs

abbrev pub path_args : Args → List String
path_args args =
    cons_some args.path
      (cons_some args.parent_path (cons_some args.src (cons_some args.dst_dir args.paths)))

abbrev pub place_excluded : Option String → Exclusions → Bool
place_excluded none ex = false
place_excluded (some id) ex = mem id ex.ids

-- What a tool returns. A `plain` object holds its own fields; `opaque` is any value that is kept
-- as it is, such as a number or a date.
mutual
  pub data Result : Type 0 where
    opaque : ℕ → Result
    text : String → Result
    array : Elements → Result
    plain : Members → Result

  pub data Elements : Type 0 where
    empty : Elements
    element : Result → Elements → Elements

  pub data Members : Type 0 where
    done : Members
    member : String → Result → Members → Members

-- The `path` of an object, if it is a text.
abbrev pub text_of : Result → Option String
text_of (text s) = some s
text_of v = none

abbrev pub path_in : Members → Option String
path_in done = none
path_in (member k v members) = if str_eq k "path" then text_of v else path_in members

abbrev pub path_of : Result → Option String
path_of (plain members) = path_in members
path_of v = none

module _ (posix_normalize : String → String) where
  unfoldable pub normalise : String → String
  normalise p = let n = posix_normalize p in if ltb 1 (utf16_length n) then strip_slashes n else n

  unfoldable pub is_excluded : String → Exclusions → Bool
  is_excluded p ex =
      if length ex.paths == 0 then false else any (λ e. within (normalise p) e) ex.paths

  unfoldable pub holds_excluded : String → Exclusions → Bool
  holds_excluded p ex = any (λ e. within e (normalise p)) ex.paths

  unfoldable pub check_args : Args → Bool → Exclusions → Bool
  check_args args changes ex =
      if length ex.paths == 0
      then false
      else any (λ p. is_excluded p ex || (changes && holds_excluded p ex)) (path_args args)
        || place_excluded args.place_id ex

  abbrev pub item_excluded : Option String → Exclusions → Bool
  item_excluded none ex = false
  item_excluded (some p) ex = is_excluded p ex

  unfoldable mutual
    pub filter_value : Exclusions → Result → Result
    filter_value ex (opaque n) = opaque n
    filter_value ex (text s) = text s
    filter_value ex (array items) = array (filter_elements ex items)
    filter_value ex (plain members) = plain (filter_members ex members)

    pub filter_elements : Exclusions → Elements → Elements
    filter_elements ex empty = empty
    filter_elements ex (element v items) =
        let rest = filter_elements ex items in
        let kept = element (filter_value ex v) rest in
        if item_excluded (path_of v) ex then rest else kept

    pub filter_members : Exclusions → Members → Members
    filter_members ex done = done
    filter_members ex (member k v members) =
        member k (filter_value ex v) (filter_members ex members)

  unfoldable pub filter_result : Result → Exclusions → Result
  filter_result v ex = if length ex.paths == 0 then v else filter_value ex v
