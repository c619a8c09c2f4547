-- ===== src/Base/Every.antt =====
-- Lists all of whose elements have a property, and lists without repetition, through the operations
-- on lists and through permutations.
use geo.Base.{◌≡◌}
use mathlib.Core.Path.{sym, ◌∙◌, subst, ◌≡◌}
use mathlib.Core.Logic.{◌⊎◌, inl, inr}
use mathlib.Core.List.{List, [], ◌∷◌, ◌++◌, Permᴰ}
use Prim.Native.Nat.{ℕ, zero, suc}
use geo.Base.Lists.{In-append_left, All, In, Distinct, take}

module _ {A : Type 0} (P : A → Type 0) where
  pub All-take : (k : ℕ) (xs : List A) → All P xs → All P (take k xs)
  All-take zero xs h = tt
  All-take (suc k) [] h = tt
  All-take (suc k) (x ∷ xs) h = (h.0, All-take k xs h.1)

  pub All-append : (xs ys : List A) → All P xs → All P ys → All P (xs ++ ys)
  All-append [] ys hx hy = hy
  All-append (x ∷ xs) ys hx hy = (hx.0, All-append xs ys hx.1 hy)

  pub All-append_left : (xs ys : List A) → All P (xs ++ ys) → All P xs
  All-append_left [] ys h = tt
  All-append_left (x ∷ xs) ys h = (h.0, All-append_left xs ys h.1)

  pub All-In : (a : A) (xs : List A) → All P xs → In a xs → P a
  All-In a [] h i = absurd i
  All-In a (x ∷ xs) h (inl e) = subst P e h.0
  All-In a (x ∷ xs) h (inr i) = All-In a xs h.1 i

  pub All-Permᴰ : {xs ys : List A} → Permᴰ xs ys → All P xs → All P ys
  All-Permᴰ Permᴰ.nil h = tt
  All-Permᴰ (Permᴰ.cons e p) h = (subst P e h.0, All-Permᴰ p h.1)
  All-Permᴰ (Permᴰ.swap e d) h = (subst P d h.1.0, (subst P e h.0, h.1.1))
  All-Permᴰ (Permᴰ.trans p r) h = All-Permᴰ r (All-Permᴰ p h)

In-same : {A : Type 0} {a b : A} (xs : List A) → a ≡ b → In a xs → In b xs
In-same xs e i = subst (λ x. In x xs) e i

pub In-Permᴰ : {A : Type 0} (a : A) {xs ys : List A} → Permᴰ xs ys → In a ys → In a xs
In-Permᴰ a Permᴰ.nil h = h
In-Permᴰ a (Permᴰ.cons e p) (inl h) = inl (e ∙ h)
In-Permᴰ a (Permᴰ.cons e p) (inr h) = inr (In-Permᴰ a p h)
In-Permᴰ a (Permᴰ.swap e d) (inl h) = inr (inl (d ∙ h))
In-Permᴰ a (Permᴰ.swap e d) (inr (inl h)) = inl (e ∙ h)
In-Permᴰ a (Permᴰ.swap e d) (inr (inr h)) = inr (inr h)
In-Permᴰ a (Permᴰ.trans p r) h = In-Permᴰ a p (In-Permᴰ a r h)

pub Distinct-Permᴰ : {A : Type 0} {xs ys : List A} → Permᴰ xs ys → Distinct xs → Distinct ys
Distinct-Permᴰ Permᴰ.nil h = tt
Distinct-Permᴰ (Permᴰ.cons {a} {b} {l₂} e p) h =
    (λ i. h.0 (In-same _ (sym e) (In-Permᴰ _ p i)), Distinct-Permᴰ p h.1)
Distinct-Permᴰ (Permᴰ.swap e d) h = (
  (λ i. elim i [
    | inl same ↦ h.0 (inl (d ∙ sym same ∙ sym e))
    | inr later ↦ h.1.0 (In-same _ (sym d) later)
  ]),
  ((λ i. h.0 (inr (In-same _ (sym e) i))), h.1.1),
)
Distinct-Permᴰ (Permᴰ.trans p r) h = Distinct-Permᴰ r (Distinct-Permᴰ p h)

pub In-append : {A : Type 0} (a : A) (xs ys : List A) → In a (xs ++ ys) → In a xs ⊎ In a ys
In-append a [] ys h = inr h
In-append a (x ∷ xs) ys (inl e) = inl (inl e)
In-append a (x ∷ xs) ys (inr h) = elim (In-append a xs ys h) [ inl i ↦ inl (inr i) | inr i ↦ inr i ]

-- One more element, at the end.
pub Distinct-append_one :
    {A : Type 0} (xs : List A) (a : A) → Distinct xs → ¬ In a xs → Distinct (xs ++ a ∷ [])
Distinct-append_one [] a h new = ((λ i. i), tt)
Distinct-append_one (x ∷ xs) a h new = (
  (λ i. elim (In-append x xs (a ∷ []) i) [
    | inl old ↦ h.0 old
    | inr last ↦ elim last [ inl e ↦ new (inl (sym e)) | inr none_left ↦ none_left ]
  ]),
  Distinct-append_one xs a h.1 (λ i. new (inr i)),
)

pub Distinct-append_left : {A : Type 0} (xs ys : List A) → Distinct (xs ++ ys) → Distinct xs
Distinct-append_left [] ys h = tt
Distinct-append_left (x ∷ xs) ys h =
    ((λ i. h.0 (In-append_left x xs ys i)), Distinct-append_left xs ys h.1)
