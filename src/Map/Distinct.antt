-- ===== src/Map/Distinct.antt =====
-- Maps that hold each key once.
use dnsdist_edge.Prelude.{◌≡◌, refl, none, [], ◌∷◌, arith, Eq}
use dnsdist_edge.Map.{Map, get, put, get-put}

module _ {ℓ} {K V : Type ℓ} ⦃e : Eq K⦄ where
  abbrev pub Distinct : Map K V → Type ℓ
  Distinct [] = Unit
  Distinct ((k, v) ∷ m) = (get m k ≡ none) × Distinct m

  pub put-Distinct : (m : Map K V) (k : K) (v : V) → Distinct m → Distinct (put m k v)
  unfolding get put
  put-Distinct [] k v h = (refl, tt)
  put-Distinct ((j, w) ∷ m) k v h =
      ground (arith, e.beq_iff j k, e.beq_iff k j, get-put m k j v, put-Distinct m k v)
