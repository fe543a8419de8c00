-- ===== src/FilePush/Cleaning.antt =====
-- What writer.go uses of path/filepath, on segments.
use mathlib.Core.List.{reverse}
use appx_forge.Base.{
  ◌≡◌, refl, ap, ◌∙◌, Bool, true, false, ◌||◌, Bool-cases, inl, inr, List, [], ◌∷◌, ◌++◌, String,
  str_eq, any, if◌then◌else◌, arith,
}

abbrev pub Segments : Type 0
Segments = List String

-- `filepath.IsAbs`: the text begins with "/".
unfoldable pub is_abs : Segments → Bool
is_abs [] = false
is_abs (s ∷ []) = false
is_abs (s ∷ t ∷ rest) = str_eq s ""

abbrev pub is_dot_dot : String → Bool
is_dot_dot s = str_eq s ".."

-- ".." takes the last element back; at the start it stays, unless the path is rooted.
unfoldable pub back : Bool → Segments → Segments
back true [] = []
back false [] = ".." ∷ []
back rooted (t ∷ out) = if is_dot_dot t then ".." ∷ t ∷ out else out

-- One element, onto the elements so far, the last one first.
unfoldable pub clean_step : Bool → Segments → String → Segments
clean_step rooted out s =
    if str_eq s "" || str_eq s "." then out else if is_dot_dot s then back rooted out else s ∷ out

unfoldable pub clean_onto : Bool → Segments → Segments → Segments
clean_onto rooted out [] = out
clean_onto rooted out (s ∷ rest) = clean_onto rooted (clean_step rooted out s) rest

-- A rooted path begins with an empty segment; "." and "/" are what is left of nothing.
unfoldable pub finish : Bool → Segments → Segments
finish true [] = "" ∷ "" ∷ []
finish true (s ∷ out) = "" ∷ s ∷ out
finish false [] = "." ∷ []
finish false (s ∷ out) = s ∷ out

-- `filepath.Clean`.
unfoldable pub clean : Segments → Segments
clean p = finish (is_abs p) (reverse (clean_onto (is_abs p) [] p))

abbrev pub is_empty_text : Segments → Bool
is_empty_text [] = true
is_empty_text (s ∷ []) = str_eq s ""
is_empty_text (s ∷ t ∷ rest) = false

-- `filepath.Join` of two: an empty text counts for nothing.
unfoldable pub join : Segments → Segments → Segments
join a b =
    if is_empty_text a
    then (if is_empty_text b then "" ∷ [] else clean b)
    else if is_empty_text b
    then clean a
    else clean (a ++ b)

abbrev pub without_last : Segments → Segments
without_last [] = []
without_last (s ∷ []) = "" ∷ []
without_last (s ∷ t ∷ rest) = s ∷ without_last (t ∷ rest)

-- `filepath.Dir`: what stands before the last "/", with it, cleaned.
unfoldable pub dir_of : Segments → Segments
dir_of p = clean (without_last p)

-- A segment that names no entry of a directory.
abbrev pub is_odd : String → Bool
is_odd s = str_eq s "" || str_eq s "." || is_dot_dot s

-- ".." at the bottom stays.
dots_step :
    (out : Segments) (s : String)
    → any is_dot_dot out ≡ true
    → any is_dot_dot (clean_step false out s) ≡ true
unfolding clean_step back
dots_step [] s h = ground (arith, h)
dots_step (t ∷ out) s h = ground (arith, h)

dots_stay :
    (out p : Segments) → any is_dot_dot out ≡ true → any is_dot_dot (clean_onto false out p) ≡ true
unfolding clean_onto
dots_stay out [] h = h
dots_stay out (s ∷ p) h = dots_stay (clean_step false out s) p (dots_step out s h)

no_dots :
    (out p : Segments)
    → any is_dot_dot (clean_onto false out p) ≡ false
    → any is_dot_dot out ≡ false
no_dots out p h = elim (Bool-cases (any is_dot_dot out)) [
  | inl e ↦ ground (arith, dots_stay out p e, h)
  | inr e ↦ e
]

-- A step that leaves no ".." does the same on top of anything.
step-append :
    (out base : Segments) (s : String)
    → any is_dot_dot (clean_step false out s) ≡ false
    → any is_dot_dot out ≡ false
    → clean_step true (out ++ base) s ≡ clean_step false out s ++ base
unfolding clean_step back
step-append [] base s h k = ground (arith, h)
step-append (t ∷ out) base s h k = ground (arith, h, k)

-- A relative path that does not climb out of where it starts cleans to the same on top of anything.
pub clean_onto-append :
    (out base p : Segments)
    → any is_dot_dot (clean_onto false out p) ≡ false
    → clean_onto true (out ++ base) p ≡ clean_onto false out p ++ base
unfolding clean_onto
clean_onto-append out base [] h = refl
clean_onto-append out base (s ∷ p) h =
    ap (λ z. clean_onto true z p)
      (step-append out base s (no_dots (clean_step false out s) p h) (no_dots out (s ∷ p) h))
    ∙ clean_onto-append (clean_step false out s) base p h
