-- ===== src/Paths.antt =====
-- The path operations of subrepos/plano/src/plano/main.py on the text of a path, with the functions
-- of `os.path` that they call, on a POSIX system. `expand`, which puts the values of variables and
-- the home directory into a path, is a field of the state.
pub mod Components
pub mod Normal
pub mod RoundTrip
use bsord.Base.{
  ℕ, zero, suc, ◌-◌, Bool, true, false, not, ◌&&◌, ◌||◌, Option, none, some, List, [], ◌∷◌, ◌++◌,
  Text, text_eq, str, ◌==◌, eqb, if◌then◌else◌, reverse, length, take, split_on, join_texts,
}
use bsord.World.{World}
use bsord.Strings.{starts_with, ends_with}

-- `expand`
abbrev pub expand : World → Text → Text
expand w path = w.expansion w.environ path

-- How many slashes `normpath` keeps at the start of a path: two if there are exactly two.
unfoldable pub initial_slashes : Text → ℕ
initial_slashes [] = 0
initial_slashes (a ∷ []) = if eqb a b'/' then 1 else 0
initial_slashes (a ∷ b ∷ []) = if eqb a b'/' then (if eqb b b'/' then 2 else 1) else 0
initial_slashes (a ∷ b ∷ c ∷ t) =
    if eqb a b'/' then (if eqb b b'/' && not (eqb c b'/') then 2 else 1) else 0

-- What a component `..` does to the components so far, the last one first.
abbrev pub go_up : Bool → List Text → List Text
go_up true [] = []
go_up false [] = str ".." ∷ []
go_up rooted (c ∷ cs) = if c == str ".." then str ".." ∷ c ∷ cs else cs

-- One round of the loop of `normpath` over the components of a path.
abbrev pub add_component : Bool → List Text → Text → List Text
add_component rooted cs c =
    if c == [] || c == str "." then cs else if c == str ".." then go_up rooted cs else c ∷ cs

unfoldable pub add_components : Bool → List Text → List Text → List Text
add_components rooted cs [] = cs
add_components rooted cs (c ∷ path) = add_components rooted (add_component rooted cs c) path

-- `n` slashes.
abbrev pub slashes : ℕ → Text
slashes zero = []
slashes (suc n) = b'/' ∷ slashes n

abbrev pub or_dot : Text → Text
or_dot [] = str "."
or_dot (c ∷ t) = c ∷ t

-- The path of components that follow `n` slashes.
abbrev pub from_components : ℕ → List Text → Text
from_components n cs = or_dot (slashes n ++ join_texts (str "/") (reverse cs))

-- `os.path.normpath`, where an empty path is "." too.
unfoldable pub normpath : Text → Text
unfolding split_on join_texts add_components initial_slashes
normpath path =
    let n = initial_slashes path in
    from_components n (add_components (not (eqb n 0)) [] (split_on b'/' path))

-- One step of `os.path.join`.
unfoldable pub join_two : Text → Text → Text
join_two path b =
    if starts_with b (str "/")
    then b
    else if path == [] || ends_with path (str "/")
    then path ++ b
    else path ++ (b'/' ∷ b)

-- A character before a path that is cut after its last slash, if it has one.
abbrev pub cut_before : ℕ → Text × Text → Text × Text
cut_before c ([], tail) = if eqb c b'/' then (c ∷ [], tail) else ([], c ∷ tail)
cut_before c (d ∷ ds, tail) = (c ∷ d ∷ ds, tail)

-- A path cut after its last slash.
unfoldable pub cut_last : Text → Text × Text
cut_last [] = ([], [])
cut_last (c ∷ t) = cut_before c (cut_last t)

-- `head.rstrip("/")`
abbrev pub strip_slash_before : ℕ → Text → Text
strip_slash_before c [] = if eqb c b'/' then [] else c ∷ []
strip_slash_before c (d ∷ t) = c ∷ d ∷ t

unfoldable pub strip_slashes : Text → Text
strip_slashes [] = []
strip_slashes (c ∷ t) = strip_slash_before c (strip_slashes t)

abbrev pub or_else_text : Text → Text → Text
or_else_text [] t = t
or_else_text (c ∷ s) t = c ∷ s

-- `os.path.split`, which leaves a head of slashes alone.
unfoldable pub split_path : Text → Text × Text
unfolding cut_last strip_slashes
split_path path = let (head, tail) = cut_last path in (or_else_text (strip_slashes head) head, tail)

-- `os.path.splitext`: the text is cut before its last dot, if something but dots stands before that.
unfoldable pub cut_dot : Text → Option (Text × Text)
cut_dot [] = none
cut_dot (c ∷ t) = elim (cut_dot t) [
  | some (root, ext) ↦ some (c ∷ root, ext)
  | none ↦ if eqb c b'.' then some ([], c ∷ t) else none
]

abbrev pub only_dots : Text → Bool
only_dots [] = true
only_dots (c ∷ t) = eqb c b'.' && only_dots t

abbrev ext_of_name : Text → Option (Text × Text) → Text × Text
ext_of_name name none = (name, [])
ext_of_name name (some (root, ext)) = if only_dots root then (name, []) else (root, ext)

unfoldable pub splitext : Text → Text × Text
unfolding cut_last cut_dot
splitext path =
    let (head, tail) = cut_last path in
    let (root, ext) = ext_of_name tail (cut_dot tail) in (head ++ root, ext)

module _ (w : World) where
  -- `normalize_path`
  unfoldable pub normalize_path : Text → Text
  normalize_path path = normpath (expand w path)

  -- `join` of two paths.
  unfoldable pub join : Text → Text → Text
  unfolding normalize_path
  join a b = normalize_path (join_two (expand w a) (expand w b))

  -- `split`
  unfoldable pub split : Text → Text × Text
  unfolding normalize_path
  split path = split_path (normalize_path (expand w path))

  -- `split_extension`
  unfoldable pub split_extension : Text → Text × Text
  unfolding normalize_path
  split_extension path = splitext (normalize_path (expand w path))

  -- `get_parent_dir`
  unfoldable pub get_parent_dir : Text → Text
  unfolding split
  get_parent_dir path = (split (normalize_path (expand w path))).0

  -- `get_base_name`
  unfoldable pub get_base_name : Text → Text
  unfolding split
  get_base_name path = (split (normalize_path (expand w path))).1

  -- `if name.endswith(".tar.gz"): name = name[:-3]`
  abbrev without_gz : Text → Text
  without_gz name = if ends_with name (str ".tar.gz") then take (length name - 3) name else name

  -- `get_name_stem`
  unfoldable pub get_name_stem : Text → Text
  unfolding get_base_name split_extension
  get_name_stem file = (split_extension (without_gz (get_base_name (expand w file)))).0

  -- `get_name_extension`
  unfoldable pub get_name_extension : Text → Text
  unfolding get_base_name split_extension
  get_name_extension file = (split_extension (get_base_name (expand w file))).1

  -- `get_absolute_path`: `os.path.abspath` of the path, which `expand` has been applied to.
  unfoldable pub get_absolute_path : Text → Text
  get_absolute_path path = normpath (join_two w.current_dir (expand w path))

  -- `is_absolute`
  unfoldable pub is_absolute : Text → Bool
  is_absolute path = starts_with (expand w path) (str "/")
