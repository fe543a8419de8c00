-- ===== src/Store/Table.antt =====
-- What SELECT, UPDATE and DELETE do to the rows of one table.
use mathlib.Core.Option
use appx_forge.Base.{
  ◌≡◌, refl, Bool, true, false, Bool-cases, none, some, List, [], ◌∷◌, ◌++◌, arith, inl, inr,
  if◌then◌else◌, find, any, length, All, is_some,
}

module _ {A : Type 0} where
  -- UPDATE … SET f WHERE p.
  unfoldable pub update : (A → Bool) → (A → A) → List A → List A
  update p f [] = []
  update p f (r ∷ rs) = (if p r then f r else r) ∷ update p f rs

  -- DELETE … WHERE p.
  unfoldable pub delete : (A → Bool) → List A → List A
  delete p [] = []
  delete p (r ∷ rs) = let rest = delete p rs in if p r then rest else r ∷ rest

  -- A search by what the update leaves alone finds the same row, updated.
  pub find-update :
      (q p : A → Bool) (f : A → A) (rs : List A)
      → ((r : A) → q (f r) ≡ q r)
      → find q (update p f rs) ≡ Option.map (λ r. if p r then f r else r) (find q rs)
  unfolding update
  find-update q p f [] h = refl
  find-update q p f (r ∷ rs) h = ground (arith, h r, find-update q p f rs h)

  -- Where both tests hold of one row at most, the row that one finds the other finds.
  pub find-append :
      (q : A → Bool) (rs ts : List A) (r : A) → find q rs ≡ some r → find q (rs ++ ts) ≡ some r
  find-append q [] ts r h = elim (Option.none-ne-some r h) [ ]
  find-append q (x ∷ rs) ts r h = ground (arith, find-append q rs ts r)

  pub find-append_none :
      (q : A → Bool) (rs ts : List A) → find q rs ≡ none → find q (rs ++ ts) ≡ find q ts
  find-append_none q [] ts h = refl
  find-append_none q (x ∷ rs) ts h = ground (arith, find-append_none q rs ts)

  pub find_holds : (q : A → Bool) (rs : List A) (r : A) → find q rs ≡ some r → q r ≡ true
  find_holds q [] r h = elim (Option.none-ne-some r h) [ ]
  find_holds q (x ∷ rs) r h = ground (arith, find_holds q rs r)

  pub find-eq-none : (q : A → Bool) (rs : List A) → any q rs ≡ false → find q rs ≡ none
  find-eq-none q [] h = refl
  find-eq-none q (x ∷ rs) h = ground (arith, find-eq-none q rs)

  pub any-find : (q : A → Bool) (rs : List A) → any q rs ≡ is_some (find q rs)
  any-find q [] = refl
  any-find q (x ∷ rs) = ground (arith, any-find q rs)

  pub length-update : (p : A → Bool) (f : A → A) (rs : List A) → length (update p f rs) ≡ length rs
  unfolding update
  length-update p f [] = refl
  length-update p f (r ∷ rs) = ground (arith, length-update p f rs)

  pub find-delete :
      (q p : A → Bool) (rs : List A)
      → ((r : A) → q r ≡ true → p r ≡ false)
      → find q (delete p rs) ≡ find q rs
  unfolding delete
  find-delete q p [] h = refl
  find-delete q p (r ∷ rs) h = ground (arith, h r, find-delete q p rs h)

  pub find-delete_self : (p : A → Bool) (rs : List A) → find p (delete p rs) ≡ none
  unfolding delete
  find-delete_self p [] = refl
  find-delete_self p (r ∷ rs) = ground (arith, find-delete_self p rs)

  pub All-update {κ} :
      {P : A → Type κ} (p : A → Bool) (f : A → A) (rs : List A)
      → ((r : A) → P r → P (f r))
      → All P rs
      → All P (update p f rs)
  unfolding update
  All-update p f [] h a = tt
  All-update {P} p f (r ∷ rs) h a = elim (Bool-cases (p r)) [
    | inl e ↦ rw e (h r a.0, All-update p f rs h a.1)
    | inr e ↦ rw e (a.0, All-update p f rs h a.1)
  ]
