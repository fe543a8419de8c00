-- ===== src/FilePush/Joining.antt =====
-- Where a relative path leads below a directory.
use mathlib.Core.List.{
  reverse, reverse-append, reverse-cons, reverse-reverse, append_assoc, append-nil,
}
use appx_forge.Base.{
  ◌≡◌, refl, sym, ap, ◌∙◌, Bool, true, false, ◌||◌, [], ◌∷◌, ◌++◌, String, str_eq, any, arith,
}
use appx_forge.FilePush.Cleaning.{
  Segments, is_abs, is_dot_dot, is_odd, back, clean_step, clean_onto, finish, clean, join,
  is_empty_text, clean_onto-append,
}

abbrev is_blank : String → Bool
is_blank s = str_eq s "" || str_eq s "."

step-blank :
    (out : Segments) (s : String)
    → any is_blank out ≡ false
    → any is_blank (clean_step false out s) ≡ false
unfolding clean_step back
step-blank [] s h = ground (arith, h)
step-blank (t ∷ out) s h = ground (arith, h)

onto-blank :
    (out p : Segments) → any is_blank out ≡ false → any is_blank (clean_onto false out p) ≡ false
unfolding clean_onto
onto-blank out [] h = h
onto-blank out (s ∷ p) h = onto-blank (clean_step false out s) p (step-blank out s h)

any-odd :
    (xs : Segments) → any is_blank xs ≡ false → any is_dot_dot xs ≡ false → any is_odd xs ≡ false
any-odd [] h k = refl
any-odd (x ∷ xs) h k = ground (arith, h, k, any-odd xs)

any-append : (p : String → Bool) (xs ys : Segments) → any p (xs ++ ys) ≡ any p xs || any p ys
any-append p [] ys = refl
any-append p (x ∷ xs) ys = ground (arith, any-append p xs ys)

any-reverse : (p : String → Bool) (xs : Segments) → any p (reverse xs) ≡ any p xs
any-reverse p [] = refl
any-reverse p (x ∷ xs) =
    ap (any p) (reverse-cons x xs)
    ∙ any-append p (reverse xs) (x ∷ [])
    ∙ ground (arith, any-reverse p xs)

-- The elements that a relative path leaves, in order.
abbrev pub below : Segments → Segments
below p = reverse (clean_onto false [] p)

pub below-plain : (p : Segments) → any is_dot_dot (below p) ≡ false → any is_odd (below p) ≡ false
below-plain p h =
    any-odd (below p) (any-reverse is_blank (clean_onto false [] p) ∙ onto-blank [] p refl) h

pushed : (out : Segments) (d : String) → is_odd d ≡ false → clean_step true out d ≡ d ∷ out
unfolding clean_step
pushed out d h = ground (arith, h)

onto-neat :
    (out ds p : Segments)
    → any is_odd ds ≡ false
    → clean_onto true out (ds ++ p) ≡ clean_onto true (reverse ds ++ out) p
unfolding clean_onto
onto-neat out [] p h = refl
onto-neat out (d ∷ ds) p h =
    ap (λ z. clean_onto true z (ds ++ p)) (pushed out d (ground (arith, h)))
    ∙ onto-neat (d ∷ out) ds p (ground (arith, h))
    ∙ ap (λ z. clean_onto true z p)
        (sym (append_assoc (reverse ds) (d ∷ []) out)
          ∙ ap (λ z. z ++ out) (sym (reverse-cons d ds)))

-- A relative path without a ".." left leads into the directory.
pub join-below :
    (d : String) (ds p : Segments)
    → any is_odd (d ∷ ds) ≡ false
    → is_empty_text p ≡ false
    → any is_dot_dot (below p) ≡ false
    → join ("" ∷ d ∷ ds) p ≡ "" ∷ d ∷ ds ++ below p
unfolding join clean is_abs clean_onto finish clean_step
join-below d ds p neat some_text h = rw some_text (
    ap (λ z. finish true (reverse z))
      (onto-neat [] (d ∷ ds) p neat
        ∙ ap (λ z. clean_onto true z p) (append-nil (reverse (d ∷ ds)))
        ∙ clean_onto-append [] (reverse (d ∷ ds)) p
            (sym (any-reverse is_dot_dot (clean_onto false [] p)) ∙ h))
    ∙ ap (finish true) (
        reverse-append (clean_onto false [] p) (reverse (d ∷ ds))
        ∙ ap (λ z. z ++ below p) (reverse-reverse (d ∷ ds))))
