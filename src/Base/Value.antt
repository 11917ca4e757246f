-- ===== src/Base/Value.antt =====
-- The values of `json.loads`, and of the dicts that the vision code hands on: what the source calls
-- `Any`. `F` is the type of floats. A dict is a list of its entries, the keys being texts.
use Prim.Native.String.{String}
use mathlib.Core.Path.{◌≡◌, refl}
use mathlib.Core.Bool.{Bool, true, false, ◌&&◌}
use mathlib.Core.Option.{Option, none, some}
use text.Mathlib.Text.{◌==◌}
use text.Mathlib.TextEquality.{eq_iff}
use native.Mathlib.Omega.{arith}
use Prim.Native.Nat.{ℕ, suc}
use bxi_car_v.Base.Tests.{if◌then◌else◌}
use bxi_car_v.Base.Int.{ℤ}

mutual
  pub data Value (F : Type 0) : Type 0 where
    null : Value F
    bool : Bool → Value F
    int : ℤ → Value F
    float : F → Value F
    str : String → Value F
    list : Items F → Value F
    dict : Fields F → Value F

  pub data Items (F : Type 0) : Type 0 where
    nil : Items F
    cons : Value F → Items F → Items F

  pub data Fields (F : Type 0) : Type 0 where
    end : Fields F
    field : String → Value F → Fields F → Fields F

abbrev pub as_dict : {F : Type 0} → Value F → Option (Fields F)
as_dict (dict d) = some d
as_dict _ = none

abbrev pub as_list : {F : Type 0} → Value F → Option (Items F)
as_list (list xs) = some xs
as_list _ = none

-- `value is None`.
abbrev pub is_null : {F : Type 0} → Value F → Bool
is_null null = true
is_null _ = false

-- `value is True`.
abbrev pub is_true : {F : Type 0} → Value F → Bool
is_true (bool b) = b
is_true _ = false

-- `isinstance(value, int)`: a Python bool is an int.
abbrev pub is_int : {F : Type 0} → Value F → Bool
is_int (bool b) = true
is_int (int z) = true
is_int _ = false

-- `value == name` for a text `name`.
abbrev pub is_str : {F : Type 0} → String → Value F → Bool
is_str name (str s) = s == name
is_str name _ = false

module _ {F : Type 0} where
  -- `d[key]`, `none` being the KeyError.
  unfoldable pub item : String → Fields F → Option (Value F)
  item key end = none
  item key (field k v d) = if k == key then some v else item key d

  -- `d.get(key, default)`.
  unfoldable pub get_or : String → Value F → Fields F → Value F
  get_or key default d = elim (item key d) [ none ↦ default | some v ↦ v ]

  -- `d.get(key)`.
  unfoldable pub get : String → Fields F → Value F
  unfolding get_or
  get key d = get_or key null d

  -- `key in d`.
  unfoldable pub has : String → Fields F → Bool
  has key d = elim (item key d) [ none ↦ false | some v ↦ true ]

  -- `d[key] = v`.
  unfoldable pub set : String → Value F → Fields F → Fields F
  set key v end = field key v end
  set key v (field k w d) = if k == key then field key v d else field k w (set key v d)

  -- `d.pop(key, None)`.
  unfoldable pub pop : String → Fields F → Fields F
  pop key end = end
  pop key (field k w d) = if k == key then pop key d else field k w (pop key d)

  -- `all(test(key) for key in d)`.
  unfoldable pub all_keys : (String → Bool) → Fields F → Bool
  all_keys test end = true
  all_keys test (field k w d) = test k && all_keys test d

  -- `len(xs)` and `all(test(x) for x in xs)` of a list.
  unfoldable pub count_items : Items F → ℕ
  count_items nil = 0
  count_items (cons x xs) = suc (count_items xs)

  unfoldable pub all_items : (Value F → Bool) → Items F → Bool
  all_items test nil = true
  all_items test (cons x xs) = test x && all_items test xs

  pub item-set :
      (k j : String) (v : Value F) (d : Fields F)
      → item j (set k v d) ≡ (if k == j then some v else item j d)
  unfolding item set
  item-set k j v end = refl
  item-set k j v (field i w d) =
      ground (arith, eq_iff k j, eq_iff i k, eq_iff i j, item-set k j v d)

  pub item-pop :
      (k j : String) (d : Fields F) → item j (pop k d) ≡ (if k == j then none else item j d)
  unfolding item pop
  item-pop k j end = ground arith
  item-pop k j (field i w d) = ground (arith, eq_iff k j, eq_iff i k, eq_iff i j, item-pop k j d)
