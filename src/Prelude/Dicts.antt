-- ===== src/Prelude/Dicts.antt =====
-- Python's dict with text keys, as its items in the order of insertion, and its laws.
use mathlib.Core.Path.{◌≡◌, refl}
use mathlib.Core.Bool.{false}
use mathlib.Core.Option.{Option, none, some}
use mathlib.Core.List.{List, [], ◌∷◌}
use native.Mathlib.Omega.{arith}
use text.Mathlib.TextEquality.{eq_iff}
use Prim.Native.String.{String}
use cogito_agent.Prelude.Tests.{if◌then◌else◌}
use cogito_agent.Prelude.Texts.{◌=s◌, =s_refl}

abbrev pub Dict {ℓ} : Type ℓ → Type ℓ
Dict A = List (String × A)

module _ {ℓ} {A : Type ℓ} where
  -- `d.get(k)`
  unfoldable pub dict_get : String → Dict A → Option A
  dict_get k [] = none
  dict_get k ((j, a) ∷ d) = let rest = dict_get k d in if j =s k then some a else rest

  -- `d[k] = a`
  unfoldable pub dict_set : String → A → Dict A → Dict A
  dict_set k a [] = (k, a) ∷ []
  dict_set k a ((j, b) ∷ d) =
      let rest = dict_set k a d in if j =s k then (j, a) ∷ d else (j, b) ∷ rest

  -- `d.pop(k, None)`, whose result is that of `d.get(k)`.
  unfoldable pub dict_pop : String → Dict A → Dict A
  dict_pop k [] = []
  dict_pop k ((j, b) ∷ d) = let rest = dict_pop k d in if j =s k then rest else (j, b) ∷ rest

  pub dict_get-dict_set : (k : String) (a : A) (d : Dict A) → dict_get k (dict_set k a d) ≡ some a
  unfolding dict_get dict_set
  dict_get-dict_set k a [] = ground (arith, =s_refl k)
  dict_get-dict_set k a ((j, b) ∷ d) = ground (arith, dict_get-dict_set k a d)

  pub dict_get-dict_set_other :
      (k j : String) (a : A) (d : Dict A)
      → (k =s j) ≡ false
      → dict_get j (dict_set k a d) ≡ dict_get j d
  unfolding dict_get dict_set
  dict_get-dict_set_other k j a [] ne = ground (arith, ne)
  dict_get-dict_set_other k j a ((i, b) ∷ d) ne =
      ground (arith, ne, dict_get-dict_set_other k j a d ne, eq_iff i k, eq_iff i j, eq_iff k j)

  pub dict_get-dict_pop : (k : String) (d : Dict A) → dict_get k (dict_pop k d) ≡ none
  unfolding dict_get dict_pop
  dict_get-dict_pop k [] = refl
  dict_get-dict_pop k ((j, b) ∷ d) = ground (arith, dict_get-dict_pop k d)

  pub dict_get-dict_pop_other :
      (k j : String) (d : Dict A) → (k =s j) ≡ false → dict_get j (dict_pop k d) ≡ dict_get j d
  unfolding dict_get dict_pop
  dict_get-dict_pop_other k j [] ne = refl
  dict_get-dict_pop_other k j ((i, b) ∷ d) ne =
      ground (arith, ne, dict_get-dict_pop_other k j d ne, eq_iff i k, eq_iff i j, eq_iff k j)
