-- ===== src/Paths/RoundTrip.antt =====
-- A path is put together again from its parent directory and its base name.
use mathlib.Core.Path.{subst}
use mathlib.Core.List.{reverse-cons, append_assoc}
use bsord.Base.{
  ℕ, zero, suc, ◌≡◌, ◌∙◌, ◌≤◌, refl, sym, ap, false, not, List, [], ◌∷◌, ◌++◌, Text, text_eq,
  nat_eq, str, ◌==◌, arith, reverse, Lacks, join_texts, eqb, length-append, drop-length_append,
}
use bsord.World.{World}
use bsord.Strings.{starts_with, ends_with}
use bsord.Paths.{
  normpath, from_components, slashes, or_dot, cut_last, cut_before, strip_slashes, split_path,
  join_two, join, get_parent_dir, get_base_name, normalize_path, split, expand, or_else_text,
}
use bsord.Paths.Components.{IsName, AreNormal}
use bsord.Paths.Normal.{normpath-AreNormal, normpath_idempotent, IsName-cons}

cut_last-Lacks : (c : Text) → Lacks b'/' c → cut_last c ≡ ([], c)
unfolding cut_last nat_eq
cut_last-Lacks [] h = refl
cut_last-Lacks (x ∷ c) h = ground (arith, cut_last-Lacks c)

cut_last-append : (a c : Text) → Lacks b'/' c → cut_last (a ++ b'/' ∷ c) ≡ (a ++ b'/' ∷ [], c)
unfolding cut_last
cut_last-append [] c h = ground (arith, cut_last-Lacks c h)
cut_last-append (x ∷ []) c h = ground (arith, cut_last-Lacks c h)
cut_last-append (x ∷ y ∷ a) c h = ap (cut_before x) (cut_last-append (y ∷ a) c h)

strip_slashes-last :
    (b : Text) (x : ℕ)
    → eqb x b'/' ≡ false
    → strip_slashes ((b ++ x ∷ []) ++ b'/' ∷ []) ≡ b ++ x ∷ []
unfolding strip_slashes
strip_slashes-last [] x h = rw h
strip_slashes-last (y ∷ []) x h = rw h
strip_slashes-last (y ∷ z ∷ b) x h = rw (strip_slashes-last (z ∷ b) x h)

-- A text that ends in no slash.
Closed : Text → Type 0
Closed t = (b : Text) × (x : ℕ) × (t ≡ b ++ x ∷ []) × (eqb x b'/' ≡ false)

Closed-append : (a t : Text) → Closed t → Closed (a ++ t)
unfolding Closed
Closed-append a t (b, x, e, h) =
    (a ++ b, x, ap (λ s. a ++ s) e ∙ sym (append_assoc a b (x ∷ [])), h)

IsName-Closed_rest : (x : ℕ) (c : Text) → Lacks b'/' (x ∷ c) → Closed (x ∷ c)
unfolding Closed nat_eq
IsName-Closed_rest x [] l = ([], x, refl, ground arith)
IsName-Closed_rest x (y ∷ c) l =
    let (b, z, same, h) = IsName-Closed_rest y c (ground arith) in
    (x ∷ b, z, ap (λ s. x ∷ s) same, h)

IsName-Closed : (c : Text) → IsName c → Closed c
unfolding text_eq
IsName-Closed [] (e, d, l) = cc
IsName-Closed (x ∷ c) (e, d, l) = IsName-Closed_rest x c l

join-append :
    (y : Text) (ys : List Text) (c : Text)
    → join_texts (str "/") ((y ∷ ys) ++ c ∷ []) ≡ join_texts (str "/") (y ∷ ys) ++ b'/' ∷ c
unfolding join_texts
join-append y [] c = refl
join-append y (z ∷ ys) c =
    ap (λ t. y ++ (str "/" ++ t)) (join-append z ys c)
    ∙ sym (append_assoc y (str "/" ++ join_texts (str "/") (z ∷ ys)) (b'/' ∷ c))

starts_with-name : (c : Text) → IsName c → starts_with c (str "/") ≡ false
unfolding starts_with text_eq nat_eq
starts_with-name [] (e, d, l) = cc
starts_with-name (x ∷ []) (e, d, l) = ground arith
starts_with-name (x ∷ y ∷ c) (e, d, l) = ground arith

ends_with-last : (b : Text) (x : ℕ) → eqb x b'/' ≡ false → ends_with (b ++ x ∷ []) (str "/") ≡ false
unfolding ends_with text_eq
ends_with-last b x h = ground (arith, length-append b (x ∷ []), drop-length_append b (x ∷ []))

last_nonempty : (b : Text) (x : ℕ) → ((b ++ x ∷ []) == []) ≡ false
unfolding text_eq
last_nonempty [] x = refl
last_nonempty (y ∷ b) x = refl

join_two-name : (path c : Text) → IsName c → Closed path → join_two path c ≡ path ++ b'/' ∷ c
unfolding join_two Closed
join_two-name path c name (b, x, e, h) =
    subst (λ p. join_two p c ≡ p ++ b'/' ∷ c) (sym e)
      (rw (starts_with-name c name, last_nonempty b x, ends_with-last b x h))

-- A path that is put together again from the two parts that it is split into.
Rejoins : Text → Type 0
Rejoins p = join_two (split_path p).0 (split_path p).1 ≡ p

Rejoins-name : (c : Text) → IsName c → Rejoins c
unfolding Rejoins split_path strip_slashes join_two text_eq
Rejoins-name c (e, d, l) = rw (cut_last-Lacks c l, starts_with-name c (e, d, l))

Rejoins-rooted : (n : ℕ) (c : Text) → n ≤ 1 → IsName c → Rejoins (slashes (suc n) ++ c)
unfolding Rejoins split_path strip_slashes join_two text_eq ends_with
Rejoins-rooted zero c h (e, d, l) = rw (cut_last-append [] c l, starts_with-name c (e, d, l))
Rejoins-rooted (suc zero) c h (e, d, l) =
    rw (cut_last-append (b'/' ∷ []) c l, starts_with-name c (e, d, l))
Rejoins-rooted (suc (suc n)) c h name = absurd (omega arith)

or_else_text-last : (b : Text) (x : ℕ) (t : Text) → or_else_text (b ++ x ∷ []) t ≡ b ++ x ∷ []
or_else_text-last [] x t = refl
or_else_text-last (y ∷ b) x t = refl

strip_slashes-Closed :
    (a : Text) → Closed a → or_else_text (strip_slashes (a ++ b'/' ∷ [])) (a ++ b'/' ∷ []) ≡ a
unfolding Closed
strip_slashes-Closed a (b, x, e, h) =
    subst (λ p. or_else_text (strip_slashes (p ++ b'/' ∷ [])) (p ++ b'/' ∷ []) ≡ p) (sym e)
      (ap (λ s. or_else_text s ((b ++ x ∷ []) ++ b'/' ∷ [])) (strip_slashes-last b x h)
        ∙ or_else_text-last b x ((b ++ x ∷ []) ++ b'/' ∷ []))

Rejoins-bare : (n : ℕ) → n ≤ 2 → Rejoins (from_components n [])
unfolding Rejoins split_path strip_slashes join_two cut_last text_eq join_texts starts_with
    ends_with
Rejoins-bare zero h = refl
Rejoins-bare (suc zero) h = refl
Rejoins-bare (suc (suc zero)) h = refl
Rejoins-bare (suc (suc (suc n))) h = absurd (omega arith)

Rejoins-append : (a c : Text) → Closed a → IsName c → Rejoins (a ++ b'/' ∷ c)
unfolding Rejoins split_path
Rejoins-append a c closed (e, d, l) =
    rw (cut_last-append a c l, strip_slashes-Closed a closed) (join_two-name a c (e, d, l) closed)

join-Closed : (ys : List Text) (c : Text) → IsName c → Closed (join_texts (str "/") (ys ++ c ∷ []))
unfolding join_texts
join-Closed [] c name = IsName-Closed c name
join-Closed (y ∷ ys) c name = subst Closed (sym (join-append y ys c)) (
    Closed-append (join_texts (str "/") (y ∷ ys)) (b'/' ∷ c)
      (Closed-append (b'/' ∷ []) c (IsName-Closed c name)))

join-append_two :
    (ys : List Text) (d c : Text)
    → join_texts (str "/") ((ys ++ d ∷ []) ++ c ∷ [])
      ≡ join_texts (str "/") (ys ++ d ∷ []) ++ b'/' ∷ c
join-append_two [] d c = join-append d [] c
join-append_two (y ∷ ys) d c = join-append y (ys ++ d ∷ []) c

or_dot-append : (a c : Text) → or_dot (a ++ b'/' ∷ c) ≡ a ++ b'/' ∷ c
or_dot-append [] c = refl
or_dot-append (x ∷ a) c = refl

from_components-append :
    (n : ℕ) (c d : Text) (cs : List Text)
    → let j = join_texts (str "/") (reverse cs ++ d ∷ []) in
      from_components n (c ∷ d ∷ cs) ≡ (slashes n ++ j) ++ b'/' ∷ c
from_components-append n c d cs =
    let j = join_texts (str "/") (reverse cs ++ d ∷ []) in
    let names = reverse-cons c (d ∷ cs) ∙ ap (λ ns. ns ++ c ∷ []) (reverse-cons d cs) in
    ap (λ ns. or_dot (slashes n ++ join_texts (str "/") ns)) names
    ∙ (ap (λ t. or_dot (slashes n ++ t)) (join-append_two (reverse cs) d c)
        ∙ (ap or_dot (sym (append_assoc (slashes n) j (b'/' ∷ c)))
            ∙ or_dot-append (slashes n ++ j) c))

Rejoins-from_components :
    (n : ℕ) (cs : List Text) → n ≤ 2 → AreNormal (not (eqb n 0)) cs → Rejoins (from_components n cs)
unfolding join_texts
Rejoins-from_components n [] h ok = Rejoins-bare n h
Rejoins-from_components zero (c ∷ []) h (name, _, _) =
    let (x, t, e, _) = IsName-cons c name in
    subst Rejoins (e ∙ sym (ap or_dot e)) (Rejoins-name c name)
Rejoins-from_components (suc n) (c ∷ []) h (name, _, _) = Rejoins-rooted n c (omega arith) name
Rejoins-from_components n (c ∷ d ∷ cs) h (name, _, (named, _, _)) =
    subst Rejoins (sym (from_components-append n c d cs)) (
      Rejoins-append (slashes n ++ join_texts (str "/") (reverse cs ++ d ∷ [])) c
        (Closed-append (slashes n) (join_texts (str "/") (reverse cs ++ d ∷ []))
          (join-Closed (reverse cs) d named))
        name)

-- In a state where no path has anything to expand, a path is, when it is normalized, its base name
-- joined to its parent directory.
pub join-split :
    (w : World) (path : Text)
    → ((t : Text) → expand w t ≡ t)
    → join w (get_parent_dir w path) (get_base_name w path) ≡ normalize_path w path
unfolding join get_parent_dir get_base_name normalize_path split Rejoins
join-split w path plain =
    let p = normpath path in
    let normalized = λ (t : Text). ap normpath (plain t) in
    let (n, cs, h, ok, e) = normpath-AreNormal path in
    let parts : split w (normalize_path w (expand w path)) ≡ split_path p = ap split_path (
      normalized (expand w (normalize_path w (expand w path)))
      ∙ (ap normpath (plain (normalize_path w (expand w path)))
          ∙ (ap normpath (normalized (expand w path) ∙ ap normpath (plain path))
              ∙ normpath_idempotent path))) in
    let whole = subst Rejoins (sym e) (Rejoins-from_components n cs h ok) in
    let joined = λ (q : Text × Text).
      ap (λ a. join_two a (expand w q.1)) (plain q.0) ∙ ap (join_two q.0) (plain q.1) in
    normalized (join_two (expand w (get_parent_dir w path)) (expand w (get_base_name w path)))
    ∙ (ap normpath (
          joined (split w (normalize_path w (expand w path)))
          ∙ (ap (λ (q : Text × Text). join_two q.0 q.1) parts ∙ whole))
        ∙ (normpath_idempotent path ∙ sym (normalized path)))
