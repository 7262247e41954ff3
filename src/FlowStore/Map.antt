-- ===== src/FlowStore/Map.antt =====
-- Go's map as an association list, and the list of insertions as a list of keys, with the laws of
-- both. A key stands in an association list at most once.
use mathlib.Core.Logic.{ite}
use goflow.Base.{
  ℕ, ◌+◌, ◌-◌, ◌<◌, ◌≡◌, refl, List, [], ◌∷◌, ◌++◌, Option, none, some, length, map, arith,
}

module _ {K : Type 0} (dec : Discrete K) where
  -- How often a key stands in a list.
  unfoldable pub count : K → List K → ℕ
  count k [] = 0
  count k (j ∷ ks) = ite (dec j k) 1 0 + count k ks

  -- `order.Remove(ent.elem)`: the element of the key, which is its only one.
  unfoldable pub erase : K → List K → List K
  erase k [] = []
  erase k (j ∷ ks) = ite (dec j k) ks (j ∷ erase k ks)

  pub count-append : (k : K) (xs ys : List K) → count k (xs ++ ys) ≡ count k xs + count k ys
  unfolding count
  count-append k [] ys = omega arith
  count-append k (x ∷ xs) ys = ground (arith, count-append k xs ys)

  pub count-erase :
      (k j : K) (xs : List K) → count k (erase j xs) ≡ ite (dec j k) (count k xs - 1) (count k xs)
  unfolding count erase
  count-erase k j [] = ground arith
  count-erase k j (x ∷ xs) = ground (arith, count-erase k j xs)

  pub length-erase : (k : K) (xs : List K) → 0 < count k xs → length (erase k xs) + 1 ≡ length xs
  unfolding count erase
  length-erase k [] h = absurd (omega arith)
  length-erase k (x ∷ xs) h = ground (arith, length-erase k xs)

module _ {K E : Type 0} (dec : Discrete K) where
  -- `s.entries[key]`
  unfoldable pub lookup : K → List (K × E) → Option E
  lookup k [] = none
  lookup k ((j, e) ∷ m) = ite (dec j k) (some e) (lookup k m)

  -- `delete(s.entries, key)`
  unfoldable pub remove : K → List (K × E) → List (K × E)
  remove k [] = []
  remove k ((j, e) ∷ m) = let rest = remove k m in ite (dec j k) rest ((j, e) ∷ rest)

  -- `s.entries[key] = ent`
  unfoldable pub put : K → E → List (K × E) → List (K × E)
  unfolding remove
  put k e m = (k, e) ∷ remove k m

  -- `ent.f = …` on an entry of the map.
  unfoldable pub update : K → E → List (K × E) → List (K × E)
  update k e [] = []
  update k e ((j, d) ∷ m) = ite (dec j k) ((j, e) ∷ m) ((j, d) ∷ update k e m)

  abbrev pub keys : List (K × E) → List K
  keys = map (λ p. p.0)

  pub lookup-remove :
      (k j : K) (m : List (K × E)) → lookup k (remove j m) ≡ ite (dec j k) none (lookup k m)
  unfolding lookup remove
  lookup-remove k j [] = ground arith
  lookup-remove k j ((i, e) ∷ m) = ground (arith, lookup-remove k j m)

  pub lookup-put :
      (k j : K) (e : E) (m : List (K × E))
      → lookup k (put j e m) ≡ ite (dec j k) (some e) (lookup k m)
  unfolding lookup put
  lookup-put k j e m = ground (arith, lookup-remove k j m)

  pub lookup-update :
      (k j : K) (e d : E) (m : List (K × E))
      → lookup j m ≡ some d
      → lookup k (update j e m) ≡ ite (dec j k) (some e) (lookup k m)
  unfolding lookup update
  lookup-update k j e d [] h = cc
  lookup-update k j e d ((i, c) ∷ m) h = ground (arith, lookup-update k j e d m)

  pub keys-update : (j : K) (e : E) (m : List (K × E)) → keys (update j e m) ≡ keys m
  unfolding update
  keys-update j e [] = refl
  keys-update j e ((i, c) ∷ m) = ground (arith, keys-update j e m)

  pub count-keys-remove :
      (k j : K) (m : List (K × E))
      → count dec k (keys (remove j m)) ≡ ite (dec j k) 0 (count dec k (keys m))
  unfolding count remove
  count-keys-remove k j [] = ground arith
  count-keys-remove k j ((i, e) ∷ m) = ground (arith, count-keys-remove k j m)

  pub length-remove :
      (j : K) (m : List (K × E)) → length (remove j m) + count dec j (keys m) ≡ length m
  unfolding count remove
  length-remove j [] = refl
  length-remove j ((i, e) ∷ m) = ground (arith, length-remove j m)

  -- A key is found exactly when it stands among the keys.
  pub count-lookup-none : (k : K) (m : List (K × E)) → lookup k m ≡ none → count dec k (keys m) ≡ 0
  unfolding count lookup
  count-lookup-none k [] h = refl
  count-lookup-none k ((i, e) ∷ m) h = ground (arith, count-lookup-none k m)

  pub count-lookup-some :
      (k : K) (m : List (K × E)) {e : E} → lookup k m ≡ some e → 0 < count dec k (keys m)
  unfolding count lookup
  count-lookup-some k [] h = cc
  count-lookup-some k ((i, e) ∷ m) {e = d} h = ground (arith, count-lookup-some k m {e = d})

  pub length-keys-update : (j : K) (e : E) (m : List (K × E)) → length (update j e m) ≡ length m
  unfolding update
  length-keys-update j e [] = refl
  length-keys-update j e ((i, c) ∷ m) = ground (arith, length-keys-update j e m)
