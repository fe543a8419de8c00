-- ===== src/Base/Selection.antt =====
-- What a test selects from a list, up to the list's order.
use mathlib.Core.Path.{◌≡◌, refl, ap, ◌∙◌}
use mathlib.Core.Logic.{∥∥₁_elim, ◌↔◌, inl, inr}
use mathlib.Core.Bool.{Bool-set, Bool, true, false}
use mathlib.Core.List.{
  List, [], ◌∷◌, ◌++◌, Mem, Perm, Pairwise, Memᴰ, Permᴰ, filter, mem-filter, eq-or-mem_of_mem-cons,
  mem-cons_self, mem-cons_of_mem,
}
use mathlib.Core.List.Perm
use mathlib.Core.List.Pairwise as Pairs
use Prim.Native.Nat.{ℕ, suc, ◌-◌, ◌≤◌}
use mathlib.Core.Logic.Or
use native.Mathlib.Bridge.{le_prop}
use native.Mathlib.Nat.{ℕ_set}
use native.Mathlib.Omega.{arith}
use appx_forge.Base.Tests.{Bool-cases}
use appx_forge.Base.Lists.{select, any, take, drop, length}

is_true? : (b : Bool) → Dec (b ≡ true)
is_true? true = yes refl
is_true? false = no (λ h. ground (arith, h))

module _ {A : Type 0} (p : A → Bool) where
  select-filter : (l : List A) → select p l ≡ filter (λ a. is_true? (p a)) l
  unfolding is_true?
  select-filter [] = refl
  select-filter (x ∷ l) = elim (Bool-cases (p x)) [
    | inl e ↦ rw e (ap (λ r. x ∷ r) (select-filter l))
    | inr e ↦ rw e (select-filter l)
  ]

  pub select-Perm : {l l' : List A} → Perm l l' → Perm (select p l) (select p l')
  select-Perm {l} {l'} h = rw (select-filter l, select-filter l') (Perm.filter _ h)

  pub mem-select : {l : List A} {x : A} → Mem x (select p l) ↔ (Mem x l × (p x ≡ true))
  mem-select {l} = rw (select-filter l) (mem-filter _)

  pub select-Pairwise : {R : A → A → Type 0} {l : List A} → Pairwise R l → Pairwise R (select p l)
  select-Pairwise {l = l} h = rw (select-filter l) (Pairs.filter _ h)

  pub select-append : (xs ys : List A) → select p (xs ++ ys) ≡ select p xs ++ select p ys
  select-append [] ys = refl
  select-append (x ∷ xs) ys = ground (arith, select-append xs ys)

  pub select-all : (l : List A) → ((a : A) → Mem a l → p a ≡ true) → select p l ≡ l
  select-all [] h = refl
  select-all (x ∷ l) h =
      rw (h x mem-cons_self) (ap (λ r. x ∷ r) (select-all l (λ a m. h a (mem-cons_of_mem x m))))

  pub select-none : (l : List A) → ((a : A) → Mem a l → p a ≡ false) → select p l ≡ []
  select-none [] h = refl
  select-none (x ∷ l) h = rw (h x mem-cons_self) (select-none l (λ a m. h a (mem-cons_of_mem x m)))

  any-memᴰ : {k : A} {l : List A} → Memᴰ k l → p k ≡ true → any p l ≡ true
  any-memᴰ (Memᴰ.head e) h = ground (arith, ap p e, h)
  any-memᴰ (Memᴰ.tail d) h = ground (arith, any-memᴰ d h)

  pub any-mem : {l : List A} {k : A} → Mem k l → p k ≡ true → any p l ≡ true
  any-mem m h = ∥∥₁_elim m (Bool-set _ _) (λ d. any-memᴰ d h)

  pub any-witness : (l : List A) → any p l ≡ true → (k : A) × Mem k l × (p k ≡ true)
  any-witness [] h = ground (arith, h)
  any-witness (x ∷ l) h = elim (Bool-cases (p x)) [
    | inl e ↦ (x, mem-cons_self, e)
    | inr e ↦ let (k, m, e') = any-witness l (ground (arith, h, e)) in (k, mem-cons_of_mem x m, e')
  ]

module _ {A : Type 0} where
  pub take-append-drop : (n : ℕ) (l : List A) → take n l ++ drop n l ≡ l
  take-append-drop ℕ.zero l = refl
  take-append-drop (suc n) [] = refl
  take-append-drop (suc n) (x ∷ l) = ap (λ r. x ∷ r) (take-append-drop n l)

  pub length-drop : (n : ℕ) (l : List A) → length (drop n l) ≡ length l - n
  length-drop ℕ.zero l = omega arith
  length-drop (suc n) [] = omega arith
  length-drop (suc n) (x ∷ l) = omega (arith, length-drop n l)

  length-Permᴰ : {l l' : List A} → Permᴰ l l' → length l ≡ length l'
  length-Permᴰ Permᴰ.nil = refl
  length-Permᴰ (Permᴰ.cons e d) = ap suc (length-Permᴰ d)
  length-Permᴰ (Permᴰ.swap e e') = refl
  length-Permᴰ (Permᴰ.trans d d') = length-Permᴰ d ∙ length-Permᴰ d'

  pub length-Perm : {l l' : List A} → Perm l l' → length l ≡ length l'
  length-Perm h = ∥∥₁_elim h (ℕ_set _ _) length-Permᴰ

  -- A bound on the entries of a list.
  pub below-cons :
      {f : A → ℕ} {n : ℕ} {x : A} {l : List A}
      → n ≤ f x
      → ((a : A) → Mem a l → n ≤ f a)
      → (a : A) → Mem a (x ∷ l)
      → n ≤ f a
  below-cons {f} {n} h hs a m =
      Or.elim le_prop (eq-or-mem_of_mem-cons m) (λ e. omega (arith, ap f e, h)) (hs a)
