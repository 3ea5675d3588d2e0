-- ===== src/ArrayMap/Laws.antt =====
-- `ArrayMap` against a map: what `Get` returns after `Put` and `Delete`. The source's `==` is a
-- parameter that decides equality.
use mikanos_aarch.Prelude.{
  ◌≡◌, ◌↔◌, refl, ap, Bool, true, false, none, some, [], ◌∷◌, suc, if◌then◌else◌, arith, length,
  Bool-cases, inl, inr,
}
use mikanos_aarch.ArrayMap.{ArrayMap, get, put, delete, has_free}

module _ {ℓ κ} {K : Type ℓ} {V : Type κ} where
  pub length-put : (m : ArrayMap K V) (key : K) (v : V) → length (put m key v) ≡ length m
  unfolding put
  length-put [] key v = refl
  length-put ((none, w) ∷ m) key v = refl
  length-put ((some k, w) ∷ m) key v = ap suc (length-put m key v)

  pub put_full : (m : ArrayMap K V) (key : K) (v : V) → has_free m ≡ false → put m key v ≡ m
  unfolding put has_free
  put_full [] key v h = refl
  put_full ((none, w) ∷ m) key v h = cc
  put_full ((some k, w) ∷ m) key v h =
      ap (λ (t : ArrayMap K V). (some k, w) ∷ t) (put_full m key v h)

module _ {ℓ κ} {K : Type ℓ} {V : Type κ} (eq : K → K → Bool)
    (eq_iff : (a b : K) → (eq a b ≡ true) ↔ (a ≡ b)) where
  -- No key stands in two slots.
  abbrev pub IsUnique : ArrayMap K V → Type κ
  IsUnique [] = Unit
  IsUnique ((none, v) ∷ m) = IsUnique m
  IsUnique ((some k, v) ∷ m) = (get eq m k ≡ none) × IsUnique m

  -- `Put` of a new key into a map with a free slot: the key now has that value, and every other key
  -- has the value it had.
  pub get-put :
      (m : ArrayMap K V) (key : K) (v : V) (j : K)
      → has_free m ≡ true
      → get eq m key ≡ none
      → get eq (put m key v) j ≡ (if eq key j then some v else get eq m j)
  unfolding get put has_free
  get-put [] key v j h n = cc
  get-put ((none, w) ∷ m) key v j h n = refl
  get-put ((some k, w) ∷ m) key v j h n =
      ground (arith, eq_iff k key, eq_iff k j, eq_iff key j, get-put m key v j)

  pub get-delete-none :
      (m : ArrayMap K V) (key j : K) → get eq m j ≡ none → get eq (delete eq m key) j ≡ none
  unfolding get delete
  get-delete-none [] key j h = refl
  get-delete-none ((none, w) ∷ m) key j h = get-delete-none m key j h
  get-delete-none ((some k, w) ∷ m) key j h = ground (arith, get-delete-none m key j)

  -- `Delete` takes exactly that key out, where no key stands twice.
  pub get-delete :
      (m : ArrayMap K V) (key j : K)
      → IsUnique m
      → get eq (delete eq m key) j ≡ (if eq key j then none else get eq m j)
  unfolding get delete
  get-delete [] key j u = ground arith
  get-delete ((none, w) ∷ m) key j u = get-delete m key j u
  get-delete ((some k, w) ∷ m) key j (new, u) =
      ground (arith, eq_iff k key, eq_iff k j, eq_iff key j, get-delete m key j u)

  get-put-none :
      (m : ArrayMap K V) (key : K) (v : V) (j : K)
      → get eq m j ≡ none
      → eq key j ≡ false
      → get eq (put m key v) j ≡ none
  unfolding get put
  get-put-none [] key v j h d = refl
  get-put-none ((none, w) ∷ m) key v j h d = rw d h
  get-put-none ((some k, w) ∷ m) key v j h d = ground (arith, get-put-none m key v j)

  -- `Put` of a key that has no value keeps every key in one slot.
  pub put-IsUnique :
      (m : ArrayMap K V) (key : K) (v : V)
      → IsUnique m
      → get eq m key ≡ none
      → IsUnique (put m key v)
  unfolding put get
  put-IsUnique [] key v u n = u
  put-IsUnique ((none, w) ∷ m) key v u n = (n, u)
  put-IsUnique ((some k, w) ∷ m) key v (new, u) n = elim (Bool-cases (eq k key)) [
    | inl e ↦ ground arith
    | inr e ↦ (
      get-put-none m key v k new (ground (arith, eq_iff k key, eq_iff key k)),
      put-IsUnique m key v u (ground arith),
    )
  ]

  -- `Delete` keeps every key in one slot.
  pub delete-IsUnique : (m : ArrayMap K V) (key : K) → IsUnique m → IsUnique (delete eq m key)
  unfolding delete get
  delete-IsUnique [] key u = u
  delete-IsUnique ((none, w) ∷ m) key u = delete-IsUnique m key u
  delete-IsUnique ((some k, w) ∷ m) key (new, u) = elim (Bool-cases (eq k key)) [
    | inl e ↦ rw e u
    | inr e ↦ rw e (get-delete-none m key k new, delete-IsUnique m key u)
  ]
