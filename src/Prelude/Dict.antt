-- ===== src/Prelude/Dict.antt =====
-- A Go map as an association list. `store`, `delete` and `keep` leave one entry to a key.
use mathlib.Core.Path.{subst₂}
use gateway_test.Prelude.{
  ◌≡◌, refl, ◌≢◌, inl, inr, Bool, Option, none, some, List, [], ◌∷◌, arith, if◌then◌else◌,
  Bool-cases, Eq, ◌==◌, nat_eq, string_eq, ==_self,
}

abbrev pub Dict {ℓ κ} : Type ℓ → Type κ → Type (ℓ ⊔ κ)
Dict K V = List (K × V)

module _ {ℓ κ} {K : Type ℓ} {V : Type κ} ⦃e : Eq K⦄ where
  unfoldable pub lookup : K → Dict K V → Option V
  lookup k [] = none
  lookup k ((j, v) ∷ m) = let later = lookup k m in if j == k then some v else later

  unfoldable pub delete : K → Dict K V → Dict K V
  delete k [] = []
  delete k ((j, v) ∷ m) = let rest = delete k m in if j == k then rest else (j, v) ∷ rest

  unfoldable pub store : K → V → Dict K V → Dict K V
  unfolding delete
  store k v m = (k, v) ∷ delete k m

  -- `for k, v := range m { if !p(k, v) { delete(m, k) } }`
  unfoldable pub keep : (K → V → Bool) → Dict K V → Dict K V
  keep p [] = []
  keep p ((j, v) ∷ m) = let rest = keep p m in if p j v then (j, v) ∷ rest else rest

  -- One entry to a key.
  abbrev pub IsMap : Dict K V → Type κ
  IsMap [] = Unit
  IsMap ((j, v) ∷ m) = (lookup j m ≡ none) × IsMap m

  pub lookup-delete :
      (k j : K) (m : Dict K V) → lookup j (delete k m) ≡ (if k == j then none else lookup j m)
  unfolding lookup delete
  lookup-delete k j [] = ground arith
  lookup-delete k j ((i, v) ∷ m) =
      ground (arith, e.beq_iff k j, e.beq_iff i k, e.beq_iff i j, lookup-delete k j m)

  pub lookup-store :
      (k j : K) (v : V) (m : Dict K V)
      → lookup j (store k v m) ≡ (if k == j then some v else lookup j m)
  unfolding lookup store
  lookup-store k j v m = ground (arith, lookup-delete k j m)

  pub lookup-store_self : (k : K) (v : V) (m : Dict K V) → lookup k (store k v m) ≡ some v
  lookup-store_self k v m = ground (arith, lookup-store k k v m, ==_self k)

  pub lookup-delete_self : (k : K) (m : Dict K V) → lookup k (delete k m) ≡ none
  lookup-delete_self k m = ground (arith, lookup-delete k k m, ==_self k)

  pub lookup-delete_other : (k j : K) (m : Dict K V) → k ≢ j → lookup j (delete k m) ≡ lookup j m
  lookup-delete_other k j m d = ground (arith, lookup-delete k j m, e.beq_iff k j)

  pub lookup-store_other :
      (k j : K) (v : V) (m : Dict K V) → k ≢ j → lookup j (store k v m) ≡ lookup j m
  lookup-store_other k j v m d = ground (arith, lookup-store k j v m, e.beq_iff k j)

  lookup-keep-none :
      (p : K → V → Bool) (k : K) (m : Dict K V) → lookup k m ≡ none → lookup k (keep p m) ≡ none
  unfolding lookup keep
  lookup-keep-none p k [] h = refl
  lookup-keep-none p k ((j, v) ∷ m) h = ground (arith, lookup-keep-none p k m)

  -- What is left at a key after a filtering loop.
  abbrev pub kept : (K → V → Bool) → K → Option V → Option V
  kept p k none = none
  kept p k (some v) = if p k v then some v else none

  pub lookup-keep :
      (p : K → V → Bool) (k : K) (m : Dict K V)
      → IsMap m
      → lookup k (keep p m) ≡ kept p k (lookup k m)
  unfolding lookup keep
  lookup-keep p k [] h = refl
  lookup-keep p k ((j, v) ∷ m) h =
      ground (arith, e.beq_iff j k, lookup-keep p k m h.1, lookup-keep-none p k m)

  pub delete-IsMap : (k : K) (m : Dict K V) → IsMap m → IsMap (delete k m)
  unfolding delete
  delete-IsMap k [] h = tt
  delete-IsMap k ((j, v) ∷ m) h = ground (arith, delete-IsMap k m h.1, lookup-delete k j m)

  pub store-IsMap : (k : K) (v : V) (m : Dict K V) → IsMap m → IsMap (store k v m)
  unfolding store
  store-IsMap k v m h = (lookup-delete_self k m, delete-IsMap k m h)

  pub keep-IsMap : (p : K → V → Bool) (m : Dict K V) → IsMap m → IsMap (keep p m)
  unfolding keep
  keep-IsMap p [] h = tt
  keep-IsMap p ((j, v) ∷ m) h = ground (arith, keep-IsMap p m h.1, lookup-keep-none p j m)

  pub delete_absent : (k : K) (m : Dict K V) → lookup k m ≡ none → delete k m ≡ m
  unfolding lookup delete
  delete_absent k [] h = refl
  delete_absent k ((j, v) ∷ m) h = ground (arith, delete_absent k m)

  -- A property of every entry.
  abbrev pub Entries {κ'} : (K → V → Type κ') → Dict K V → Type κ'
  Entries P [] = Unit
  Entries P ((j, v) ∷ m) = P j v × Entries P m

  module _ {κ'} (P : K → V → Type κ') where
    pub Entries-lookup : (k : K) (v : V) (m : Dict K V) → Entries P m → lookup k m ≡ some v → P k v
    unfolding lookup
    Entries-lookup k v [] h q = cc
    Entries-lookup k v ((j, w) ∷ m) h q = elim (Bool-cases (j == k)) [
      | inl hit ↦ let same : w ≡ v = ground arith in subst₂ P ((e.beq_iff j k).0 hit) same h.0
      | inr miss ↦ Entries-lookup k v m h.1 (ground arith)
    ]

    pub Entries-delete : (k : K) (m : Dict K V) → Entries P m → Entries P (delete k m)
    unfolding delete
    Entries-delete k [] h = tt
    Entries-delete k ((j, v) ∷ m) h = ground (arith, Entries-delete k m h.1)

    pub Entries-store :
        (k : K) (v : V) (m : Dict K V) → P k v → Entries P m → Entries P (store k v m)
    unfolding store
    Entries-store k v m p h = (p, Entries-delete k m h)

    pub Entries-keep : (p : K → V → Bool) (m : Dict K V) → Entries P m → Entries P (keep p m)
    unfolding keep
    Entries-keep p [] h = tt
    Entries-keep p ((j, v) ∷ m) h = ground (arith, Entries-keep p m h.1)
