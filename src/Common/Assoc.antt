-- ===== src/Common/Assoc.antt =====
-- A `HashMap` as its list of entries, under the test that its keys compare with.
use Prim.Native.Nat.{ℕ, ◌+◌, ◌%◌, ◌^◌}
use mathlib.Core.Bool.{Bool, ◌&&◌}
use mathlib.Core.List.{List, [], ◌∷◌}
use mathlib.Core.Option.{Option, none, some}
use rustium.Common.Tests.{if◌then◌else◌}
use rustium.Common.Lists.{Str, str_eq}

module _ {ℓ κ} {K : Type ℓ} {V : Type κ} (eq : K → K → Bool) where
  unfoldable pub find : K → List (K × V) → Option V
  find k [] = none
  find k ((j, v) ∷ m) = let rest = find k m in if eq j k then some v else rest

  unfoldable pub remove : K → List (K × V) → List (K × V)
  remove k [] = []
  remove k ((j, v) ∷ m) = let rest = remove k m in if eq j k then rest else (j, v) ∷ rest

  unfoldable pub insert : K → V → List (K × V) → List (K × V)
  unfolding remove
  insert k v m = (k, v) ∷ remove k m

-- A counter of type `u64`.
abbrev pub add_one : ℕ → ℕ
add_one n = (n + 1) % 2 ^ 64

abbrev pub or_zero : Option ℕ → ℕ
or_zero none = 0
or_zero (some n) = n

-- `*map.entry(key).or_insert(0) += 1`.
abbrev pub count {ℓ} : {K : Type ℓ} → (K → K → Bool) → K → List (K × ℕ) → List (K × ℕ)
count eq k m = insert eq k (add_one (or_zero (find eq k m))) m

-- A table: its schema, or its database, and its name.
abbrev pub TableKey : Type 0
TableKey = Str × Str

unfoldable pub same_table : TableKey → TableKey → Bool
same_table (s, t) (u, v) = str_eq s u && str_eq t v
