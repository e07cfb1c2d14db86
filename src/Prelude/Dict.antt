-- ===== src/Prelude/Dict.antt =====
-- JavaScript objects used as dictionaries: their own properties in insertion order. Assigning to a
-- key that is there keeps its place. (Keys that look like array indices, which an engine lists
-- first, are not told apart.)
use mathlib.Core.Path.{subst}
use ui_for_docker.Prelude.{
  ◌≡◌, refl, sym, true, false, Option, none, some, List, [], ◌∷◌, ◌++◌, arith, Eq, ◌==◌, ==_iff,
  ==_self, if◌then◌else◌, All, Bool-cases, inl, inr, is_some,
}

abbrev pub Dict {ℓ κ} : Type ℓ → Type κ → Type (ℓ ⊔ κ)
Dict K V = List (K × V)

module _ {ℓ κ} {K : Type ℓ} {V : Type κ} ⦃e : Eq K⦄ where
  -- `object[k]`
  unfoldable pub lookup : K → Dict K V → Option V
  lookup k [] = none
  lookup k ((j, v) ∷ d) = if j == k then some v else lookup k d

  -- `object[k] = v`
  unfoldable pub insert : K → V → Dict K V → Dict K V
  insert k v [] = (k, v) ∷ []
  insert k v ((j, w) ∷ d) = let rest = insert k v d in if j == k then (j, v) ∷ d else (j, w) ∷ rest

  -- `delete object[k]`
  unfoldable pub remove : K → Dict K V → Dict K V
  remove k [] = []
  remove k ((j, w) ∷ d) = let rest = remove k d in if j == k then rest else (j, w) ∷ rest

  pub lookup-insert :
      (k j : K) (v : V) (d : Dict K V)
      → lookup j (insert k v d) ≡ (if k == j then some v else lookup j d)
  unfolding lookup insert
  lookup-insert k j v [] = refl
  lookup-insert k j v ((i, w) ∷ d) =
      ground (arith, ==_iff k j, ==_iff i k, ==_iff i j, lookup-insert k j v d)

  pub lookup-insert_self : (k : K) (v : V) (d : Dict K V) → lookup k (insert k v d) ≡ some v
  lookup-insert_self k v d = ground (arith, lookup-insert k k v d, ==_self k)

  pub lookup-remove :
      (k j : K) (d : Dict K V) → lookup j (remove k d) ≡ (if k == j then none else lookup j d)
  unfolding lookup remove
  lookup-remove k j [] = ground arith
  lookup-remove k j ((i, w) ∷ d) =
      ground (arith, ==_iff k j, ==_iff i k, ==_iff i j, lookup-remove k j d)

  -- A key that is not there is added at the end.
  pub insert-absent :
      (k : K) (v : V) (d : Dict K V) → lookup k d ≡ none → insert k v d ≡ d ++ (k, v) ∷ []
  unfolding lookup insert
  insert-absent k v [] h = refl
  insert-absent k v ((i, w) ∷ d) h = ground (arith, insert-absent k v d)

  pub lookup-append :
      (k : K) (d d' : Dict K V) → lookup k d ≡ none → lookup k (d ++ d') ≡ lookup k d'
  unfolding lookup
  lookup-append k [] d' h = refl
  lookup-append k ((i, w) ∷ d) d' h = ground (arith, lookup-append k d d')

  -- The keys of an object are distinct.
  abbrev pub HasDistinctKeys : Dict K V → Type 0
  HasDistinctKeys [] = Unit {0}
  HasDistinctKeys ((k, v) ∷ d) = (is_some (lookup k d) ≡ false) × HasDistinctKeys d

  pub insert-HasDistinctKeys :
      (k : K) (v : V) (d : Dict K V) → HasDistinctKeys d → HasDistinctKeys (insert k v d)
  unfolding lookup insert
  insert-HasDistinctKeys k v [] h = (refl, tt)
  insert-HasDistinctKeys k v ((i, w) ∷ d) (p, h) =
      ground (arith, insert-HasDistinctKeys k v d h, lookup-insert k i v d, ==_iff i k, ==_iff k i)

  -- What holds of every value under `k` and of every entry holds after an assignment to `k`.
  pub All-insert {μ} :
      (P : K × V → Type μ) (k : K) (v : V) (d : Dict K V)
      → ((w : V) → P (k, w))
      → All P d
      → All P (insert k v d)
  unfolding insert
  All-insert P k v [] f h = (f v, tt)
  All-insert P k v ((i, w) ∷ d) f (p, h) = elim (Bool-cases (i == k)) [
    | inl e ↦ rw e (subst (λ x. P (x, v)) (sym ((==_iff i k).0 e)) (f v), h)
    | inr e ↦ rw e (p, All-insert P k v d f h)
  ]

  lookup-middle : (i : K) (v : V) (d r : Dict K V) → is_some (lookup i (d ++ (i, v) ∷ r)) ≡ true
  unfolding lookup
  lookup-middle i v [] r = ground (arith, ==_self i)
  lookup-middle i v ((j, w) ∷ d) r = ground (arith, lookup-middle i v d r)

  -- A key of distinct keys does not stand before itself.
  pub HasDistinctKeys-absent :
      (d : Dict K V) (k : K) (v : V) (r : Dict K V)
      → HasDistinctKeys (d ++ (k, v) ∷ r)
      → lookup k d ≡ none
  unfolding lookup
  HasDistinctKeys-absent [] k v r h = refl
  HasDistinctKeys-absent ((i, w) ∷ d) k v r (p, h) = elim (Bool-cases (i == k)) [
    | inl e ↦ absurd (
        cc (
          lookup-middle i v d r,
          subst (λ x. is_some (lookup i (d ++ (x, v) ∷ r)) ≡ false) (sym ((==_iff i k).0 e)) p,
        ))
    | inr e ↦ rw e (HasDistinctKeys-absent d k v r h)
  ]

  lookup-drop :
      (k j : K) (w : V) (d r : Dict K V)
      → is_some (lookup k (d ++ (j, w) ∷ r)) ≡ false
      → is_some (lookup k (d ++ r)) ≡ false
  unfolding lookup
  lookup-drop k j w [] r h = ground arith
  lookup-drop k j w ((i, v) ∷ d) r h = ground (arith, lookup-drop k j w d r)

  -- Without one of them, distinct keys are distinct.
  pub HasDistinctKeys-drop :
      (d : Dict K V) (j : K) (w : V) (r : Dict K V)
      → HasDistinctKeys (d ++ (j, w) ∷ r)
      → HasDistinctKeys (d ++ r)
  HasDistinctKeys-drop [] j w r (p, h) = h
  HasDistinctKeys-drop ((i, v) ∷ d) j w r (p, h) =
      (lookup-drop i j w d r p, HasDistinctKeys-drop d j w r h)
