-- ===== src/Routing/Graph/Names.antt =====
-- The pool of street names: an index that InternName gives leads back to the name, for good, while
-- there are fewer than 2^32 names.
use text.Mathlib.Text.{◌==◌ as str_eq}
use text.Mathlib.TextEquality.{eq_iff}
use mathlib.Core.Path.{subst}
use geo.Base.{
  ℕ, ◌<◌, ◌^◌, arith, ◌≡◌, refl, sym, ap, ◌∙◌, String, some, [], ◌∷◌, ◌++◌, inl, inr, if◌then◌else◌,
  if_cases, Bool-cases, Option-cases, length, get_elem?, get_elem?-append_last, from_some,
  get_elem?-append,
}
use geo.Base.Float.{Float}
use geo.Routing.Graph.{Graph, new_graph, to_uint32, intern_name, name_for}

to_uint32_lem : (n : ℕ) → n < 2 ^ 32 → to_uint32 n ≡ n
unfolding to_uint32
to_uint32_lem n h = omega arith

module _ (f : Float) where
  -- The index of the names agrees with the pool, and the first name is the empty one.
  pub record HasNames (g : Graph f) : Type 0 where
    pub first : get_elem? g.name_pool 0 ≡ some ""
    pub indexed : (s : String) (i : ℕ) → g.name_index s ≡ some i → get_elem? g.name_pool i ≡ some s

  pub new_graph-HasNames : HasNames (new_graph f)
  unfolding new_graph
  new_graph-HasNames = record { first = refl; indexed = λ s i h. cc }

  -- What interning a name gives: the pool stays in order, the index that is returned leads to the
  -- name, and every index that led to a name before leads to it still.
  pub record IsInterned (g : Graph f) (name : String) (r : Graph f × ℕ) : Type 0 where
    pub names : HasNames r.0
    pub found_again : name_for f r.0 r.1 ≡ name
    pub kept :
        (i : ℕ) (s : String) → get_elem? g.name_pool i ≡ some s → get_elem? r.0.name_pool i ≡ some s

  name_for_lem :
      (g : Graph f) (i : ℕ) (s : String) → get_elem? g.name_pool i ≡ some s → name_for f g i ≡ s
  unfolding name_for
  name_for_lem g i s e = rw (e, name_for)

  added-IsInterned :
      (g : Graph f) (name : String)
      → HasNames g
      → (idx : ℕ) → idx ≡ length g.name_pool
      → IsInterned g name (
        record g {
          name_pool = g.name_pool ++ name ∷ [];
          name_index = λ s. if str_eq name s then some idx else g.name_index s;
        },
        idx,
      )
  added-IsInterned g name w idx fits = record {
    names = record {
      first = get_elem?-append g.name_pool name 0 "" w.first;
      indexed = λ s i.
          if_cases (λ o. o ≡ some i → get_elem? (g.name_pool ++ name ∷ []) i ≡ some s)
            (str_eq name s)
            (λ same h.
              subst (λ j. get_elem? (g.name_pool ++ name ∷ []) j ≡ some s) (sym fits ∙ from_some h)
                (get_elem?-append_last g.name_pool name ∙ ap some ((eq_iff name s).0 same)))
            (λ other h. get_elem?-append g.name_pool name i s (w.indexed s i h));
    };
    found_again = name_for_lem _ idx name (
        subst (λ j. get_elem? (g.name_pool ++ name ∷ []) j ≡ some name) (sym fits)
          (get_elem?-append_last g.name_pool name));
    kept = λ i s h. get_elem?-append g.name_pool name i s h;
  }

  -- While the pool has fewer than 2^32 names, interning one keeps the pool and its index in agreement; the index that it returns leads back
  -- to the name, and no index that led to a name before is lost or leads to another.
  pub intern_name-IsInterned :
      (g : Graph f) (name : String)
      → HasNames g
      → length g.name_pool < 2 ^ 32
      → IsInterned g name (intern_name f g name)
  unfolding intern_name
  intern_name-IsInterned g name w fits = elim (Bool-cases (str_eq name "")) [
    | inl empty ↦
        rw (empty, intern_name)
          (record {
            names = w;
            found_again = name_for_lem g 0 "" w.first ∙ sym ((eq_iff name "").0 empty);
            kept = λ i s h. h;
          })
    | inr given ↦ elim (Option-cases (g.name_index name)) [
      | inl new ↦ rw (given, intern_name, new) (added-IsInterned g name w _ (to_uint32_lem _ fits))
      | inr (i, there) ↦
          rw (given, intern_name, there)
            (record {
              names = w;
              found_again = name_for_lem g i name (w.indexed name i there);
              kept = λ i s h. h;
            })
    ]
  ]
