-- ===== src/Json.antt =====
-- JSON values as Python's `json` reads them, and dictionaries of them with string keys. A float is
-- given by its bit pattern; what the program computes with floats is the parameter `FloatOps`.
use cortex_tutor.Prelude.{
  ℕ, String, ◌≡◌, refl, Bool, Option, none, some, arith, str_eq, eq_iff, if◌then◌else◌,
}
use cortex_tutor.Prelude.Text.{Text}
use cortex_tutor.Prelude.Int.{ℤ}
use cortex_tutor.Prelude.Result.{Result}

mutual
  pub data Json : Type 0 where
    null : Json
    bool : Bool → Json
    int : ℤ → Json
    float : ℕ → Json
    str : Text → Json
    arr : Items → Json
    obj : Fields → Json

  pub data Items : Type 0 where
    nil : Items
    cons : Json → Items → Items

  pub data Fields : Type 0 where
    end : Fields
    field : String → Json → Fields → Fields

-- The float operations that the program uses, on bit patterns: `abs(b - x)` for a natural number
-- `b`, `<`, `==` and `int(x)`, which raises on NaN and on the infinities.
pub record FloatOps : Type 0 where
  pub gap : ℕ → ℕ → ℕ
  pub less : ℕ → ℕ → Bool
  pub same : ℕ → ℕ → Bool
  pub to_int : ℕ → Result ℤ

-- `d.get(key)`, with `none` for a missing key
unfoldable pub find : String → Fields → Option Json
find k end = none
find k (field j v rest) = if str_eq j k then some v else find k rest

-- `d.get(key)`
unfoldable pub get : String → Fields → Json
unfolding find
get k d = elim (find k d) [ none ↦ null | some v ↦ v ]

-- `d.get(key, default)`
unfoldable pub get_default : String → Json → Fields → Json
unfolding find
get_default k v d = elim (find k d) [ none ↦ v | some w ↦ w ]

-- `d[key] = value`
unfoldable pub put : String → Json → Fields → Fields
put k v end = field k v end
put k v (field j w rest) = if str_eq j k then field j v rest else field j w (put k v rest)

pub find-put :
    (k j : String) (v : Json) (d : Fields)
    → find j (put k v d) ≡ (if str_eq k j then some v else find j d)
unfolding find put
find-put k j v end = refl
find-put k j v (field i w rest) =
    ground (arith, find-put k j v rest, eq_iff i k, eq_iff i j, eq_iff k j)
