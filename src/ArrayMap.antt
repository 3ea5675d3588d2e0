-- ===== src/ArrayMap.antt =====
-- kernel/usb/arraymap.hpp: a map in a fixed array of slots. A slot is `(first, second)`, as in the
-- source: the key is optional, and deleting an entry resets the key and leaves the value.
pub mod Laws
use mikanos_aarch.Prelude.{
  ℕ, ◌≡◌, ◌↔◌, Bool, true, false, Option, none, some, List, [], ◌∷◌, replicate, if◌then◌else◌,
}

-- `table_`; its length is the template's `N`.
abbrev pub ArrayMap {ℓ κ} : Type ℓ → Type κ → Type (ℓ ⊔ κ)
ArrayMap K V = List (Option K × V)

-- `table_{}`: every slot free.
abbrev pub empty_map {ℓ κ} : {K : Type ℓ} {V : Type κ} → ℕ → V → ArrayMap K V
empty_map n v = replicate n (none, v)

module _ {ℓ} {K : Type ℓ} (eq : K → K → Bool) where
  -- `opt_k && opt_k.value() == key`.
  abbrev pub holds : Option K → K → Bool
  holds none key = false
  holds (some k) key = eq k key

module _ {ℓ κ} {K : Type ℓ} {V : Type κ} (eq : K → K → Bool) where
  unfoldable pub get : ArrayMap K V → K → Option V
  get [] key = none
  get ((k, v) ∷ slots) key = if holds eq k key then some v else get slots key

  unfoldable pub delete : ArrayMap K V → K → ArrayMap K V
  delete [] key = []
  delete ((k, v) ∷ slots) key =
      if holds eq k key then (none, v) ∷ slots else (k, v) ∷ delete slots key

module _ {ℓ κ} {K : Type ℓ} {V : Type κ} where
  -- The first free slot takes the entry; a full table is left as it is.
  unfoldable pub put : ArrayMap K V → K → V → ArrayMap K V
  put [] key value = []
  put ((none, v) ∷ slots) key value = (some key, value) ∷ slots
  put ((some k, v) ∷ slots) key value = (some k, v) ∷ put slots key value

  unfoldable pub has_free : ArrayMap K V → Bool
  has_free [] = false
  has_free ((none, v) ∷ slots) = true
  has_free ((some k, v) ∷ slots) = has_free slots
