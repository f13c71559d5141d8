-- ===== src/Files/Writing.antt =====
-- What is read from a file after `write`, `append`, `prepend` or `write_lines`.
use mathlib.Core.List.{append-nil}
use bsord.Base.{
  ℕ, inl, inr, Bool-cases, All, ◌≡◌, refl, ap, sym, ◌∙◌, arith, true, false, ◌||◌, List, [], ◌∷◌,
  ◌++◌, Text, text_eq, Location, ◌==◌, eqb, Lacks, Lacks-cons, join_texts, prepend_first, nat_eq,
}
use bsord.World.{World, ok, bind_ok, pure, ◌>>◌}
use bsord.Paths.{expand, get_parent_dir}
use bsord.FileSystem.{universal_newlines, node_at, os_read, os_write}
use bsord.FileSystem.Writing.{CanWrite, written, contents, os_write-written, os_read-written}
use bsord.Files.{exists, make_dir, make_parent_dir}
use bsord.Files.Contents.{
  read, write, append, write_with, write_lines, read_lines, text_lines, written_lines,
}

pub universal_newlines-Lacks : (t : Text) → Lacks b'\r' t → universal_newlines false t ≡ t
unfolding universal_newlines nat_eq
universal_newlines-Lacks [] h = refl
universal_newlines-Lacks (c ∷ t) h =
    let (other, rest) = Lacks-cons b'\r' c t h in
    rw other (ground (arith, universal_newlines-Lacks t rest, other))

-- The parent directory is there, or it is the current one.
abbrev pub ParentThere : World → Text → Type 0
ParentThere w path = let dir = get_parent_dir w path in (dir == [] || exists w dir) ≡ true

make_dir-there :
    (w : World) (dir : Text)
    → (dir == [] || exists w dir) ≡ true
    → make_dir dir true w ≡ (ok dir, w)
unfolding make_dir
make_dir-there w dir h = rw h refl

make_parent_dir-there :
    (w : World) (path : Text)
    → ParentThere w path
    → make_parent_dir path true w ≡ (ok (get_parent_dir w path), w)
unfolding make_parent_dir
make_parent_dir-there w path h = make_dir-there w (get_parent_dir w path) h

module _ (w : World) (path : Text) (loc : Location) (p : ParentThere w path)
    (h : CanWrite w path loc) where
  write_with-written :
      (change : Text → Text)
      → write_with path change w
        ≡ (ok path, written loc (change (contents (node_at w.files loc))) w)
  unfolding write_with
  write_with-written change =
      bind_ok (make_parent_dir path true) (λ _. os_write path change >> pure path) w
        (make_parent_dir-there w path p)
      ∙ bind_ok (os_write path change) (λ _. pure path) w (os_write-written w path loc h change)

module _ (w : World) (path : Text) (loc : Location) (h : CanWrite w (expand w path) loc) where
  read-written :
      (s : Text) → read path (written loc s w) ≡ (ok (universal_newlines false s), written loc s w)
  unfolding read
  read-written s =
      bind_ok (os_read (expand w path)) (λ t. pure (universal_newlines false t)) (written loc s w)
        (os_read-written w (expand w path) loc h s)

-- If a path leads to a file, or to nothing in a directory, and its parent directory is there or it
-- has none, then `write` and `append` return the path, and `read` gives the text as it was written,
-- for `append` after what the file held, with each line end made `\n`; a text without carriage
-- returns is read as it is.
pub write-read :
    (w : World) (path s : Text) (loc : Location)
    → ParentThere w (expand w path)
    → CanWrite w (expand w path) loc
    → let full = contents (node_at w.files loc) ++ s in
      (write path s w ≡ (ok (expand w path), written loc s w))
      × (read path (written loc s w) ≡ (ok (universal_newlines false s), written loc s w))
      × (append path s w ≡ (ok (expand w path), written loc full w))
      × (read path (written loc full w) ≡ (ok (universal_newlines false full), written loc full w))
      × (Lacks b'\r' s → universal_newlines false s ≡ s)
unfolding write append
write-read w path s loc p h = (
  write_with-written w (expand w path) loc p h (λ old. s),
  read-written w path loc h s,
  write_with-written w (expand w path) loc p h (λ old. old ++ s),
  read-written w path loc h (contents (node_at w.files loc) ++ s),
  universal_newlines-Lacks s,
)

prepend_first-join :
    (c : ℕ) (ts : List Text) → join_texts [] (prepend_first c ts) ≡ c ∷ join_texts [] ts
unfolding join_texts
prepend_first-join c [] = refl
prepend_first-join c (t ∷ []) = refl
prepend_first-join c (t ∷ u ∷ ts) = refl

cons-join : (t : Text) (ts : List Text) → join_texts [] (t ∷ ts) ≡ t ++ join_texts [] ts
unfolding join_texts
cons-join t [] = sym (append-nil t)
cons-join t (u ∷ ts) = refl

-- The lines of a text make up the text.
pub join-text_lines : (t : Text) → join_texts [] (text_lines t) ≡ t
unfolding text_lines join_texts
join-text_lines [] = refl
join-text_lines (c ∷ t) = elim (Bool-cases (eqb c b'\n')) [
  | inl e ↦ rw e (cons-join (c ∷ []) (text_lines t) ∙ ap (λ (r : Text). c ∷ r) (join-text_lines t))
  | inr e ↦
      rw e (prepend_first-join c (text_lines t) ∙ ap (λ (r : Text). c ∷ r) (join-text_lines t))
]

-- Texts with a line end after each.
abbrev pub ended : List Text → List Text
ended [] = []
ended (b ∷ bodies) = (b ++ b'\n' ∷ []) ∷ ended bodies

text_lines-line :
    (b t : Text)
    → Lacks b'\n' b
    → text_lines ((b ++ b'\n' ∷ []) ++ t) ≡ (b ++ b'\n' ∷ []) ∷ text_lines t
unfolding text_lines nat_eq
text_lines-line [] t h = refl
text_lines-line (c ∷ b) t h =
    let (other, rest) = Lacks-cons b'\n' c b h in
    rw other (ap (prepend_first c) (text_lines-line b t rest))

text_lines-ended :
    (bodies : List Text)
    → All (Lacks b'\n') bodies
    → text_lines (written_lines (ended bodies)) ≡ ended bodies
unfolding text_lines join_texts
text_lines-ended [] h = refl
text_lines-ended (b ∷ bodies) (hb, h) =
    ap text_lines (cons-join (b ++ b'\n' ∷ []) (ended bodies))
    ∙ text_lines-line b (written_lines (ended bodies)) hb
    ∙ ap (λ (r : List Text). (b ++ b'\n' ∷ []) ∷ r) (text_lines-ended bodies h)

-- Under the conditions of `write` and `read`, `read_lines` gives the lines that `write_lines` wrote,
-- each of which ends with its only `\n`, if they hold no carriage return; and the lines of any
-- text make up the text.
pub write_lines-read_lines :
    (w : World) (path : Text) (loc : Location) (bodies : List Text)
    → ParentThere w (expand w path)
    → CanWrite w (expand w path) loc
    → All (Lacks b'\n') bodies
    → Lacks b'\r' (written_lines (ended bodies))
    → let w' = written loc (written_lines (ended bodies)) w in
      (write_lines path (ended bodies) w ≡ (ok (expand w path), w'))
      × (read_lines path w' ≡ (ok (ended bodies), w'))
      × ((t : Text) → join_texts [] (text_lines t) ≡ t)
unfolding write_lines read_lines
write_lines-read_lines w path loc bodies p h lines clean =
    let text = written_lines (ended bodies) in
    let w' = written loc text w in
    (
      write_with-written w (expand w path) loc p h (λ old. text),
      bind_ok (read path) (λ s. pure (text_lines s)) w' (read-written w path loc h text)
          ∙ ap (λ s. (ok (text_lines s), w')) (universal_newlines-Lacks text clean)
          ∙ ap (λ ls. (ok ls, w')) (text_lines-ended bodies lines),
      join-text_lines,
    )
