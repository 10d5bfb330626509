-- ===== src/Prelude/Dict.antt =====
-- A dict keyed by texts, in insertion order.
use save_money_trading_bot.Prelude.Tests.{if◌then◌else◌, Bool-cases}
use Prim.Native.String.{String}
use mathlib.Core.Path.{◌≡◌, refl, sym, subst}
use mathlib.Core.Logic.{inl, inr}
use mathlib.Core.Bool.{Bool, true, false}
use mathlib.Core.Option.{Option, none, some}
use mathlib.Core.List.{List, [], ◌∷◌}
use native.Mathlib.Omega.{arith}
use text.Mathlib.Text.{◌==◌ as str_eq}
use text.Mathlib.TextEquality.{eq_iff}

abbrev pub Dict {ℓ} : Type ℓ → Type ℓ
Dict V = List (String × V)

module _ {ℓ} {V : Type ℓ} where
  abbrev pub lookup : String → Dict V → Option V
  lookup k [] = none
  lookup k ((j, v) ∷ d) = if str_eq j k then some v else lookup k d

  -- `k in d`
  abbrev pub contains : String → Dict V → Bool
  contains k d = elim (lookup k d) [ none ↦ false | some _ ↦ true ]

  -- `d[k] = v`, in the place of an entry that is there.
  abbrev pub put : String → V → Dict V → Dict V
  put k v [] = (k, v) ∷ []
  put k v ((j, w) ∷ d) = let rest = put k v d in if str_eq j k then (j, v) ∷ d else (j, w) ∷ rest

  -- `d.pop(k, None)`
  abbrev pub erase : String → Dict V → Dict V
  erase k [] = []
  erase k ((j, w) ∷ d) = let rest = erase k d in if str_eq j k then rest else (j, w) ∷ rest

  -- `d.values()`
  abbrev pub values : Dict V → List V
  values [] = []
  values ((j, w) ∷ d) = w ∷ values d

  pub lookup-put :
      (k j : String) (v : V) (d : Dict V)
      → lookup j (put k v d) ≡ (if str_eq k j then some v else lookup j d)
  lookup-put k j v [] = refl
  lookup-put k j v ((i, w) ∷ d) =
      ground (arith, eq_iff k j, eq_iff i k, eq_iff i j, lookup-put k j v d)

  pub lookup-erase :
      (k j : String) (d : Dict V) → lookup j (erase k d) ≡ (if str_eq k j then none else lookup j d)
  lookup-erase k j [] = ground arith
  lookup-erase k j ((i, w) ∷ d) =
      ground (arith, eq_iff k j, eq_iff i k, eq_iff i j, lookup-erase k j d)

  pub contains-put :
      (k j : String) (v : V) (d : Dict V)
      → contains j (put k v d) ≡ (if str_eq k j then true else contains j d)
  contains-put k j v d = ground (arith, lookup-put k j v d)

  pub contains-erase :
      (k j : String) (d : Dict V)
      → contains j (erase k d) ≡ (if str_eq k j then false else contains j d)
  contains-erase k j d = ground (arith, lookup-erase k j d)

-- What holds of every entry, by key and value.
abbrev pub Every {ℓ κ} : {V : Type ℓ} → (String → V → Type κ) → Dict V → Type κ
Every P [] = Unit
Every P ((k, v) ∷ d) = P k v × Every P d

module _ {ℓ κ} {V : Type ℓ} (P : String → V → Type κ) where
  pub Every-put : (k : String) (v : V) (d : Dict V) → P k v → Every P d → Every P (put k v d)
  Every-put k v [] p h = (p, tt)
  Every-put k v ((j, w) ∷ d) p h = elim (Bool-cases (str_eq j k)) [
    | inl same ↦ rw same (subst (λ i. P i v × Every P d) (sym ((eq_iff j k).0 same)) (p, h.1))
    | inr other ↦ rw other (h.0, Every-put k v d p h.1)
  ]

  pub Every-erase : (k : String) (d : Dict V) → Every P d → Every P (erase k d)
  Every-erase k [] h = tt
  Every-erase k ((j, w) ∷ d) h = elim (Bool-cases (str_eq j k)) [
    | inl same ↦ rw same (Every-erase k d h.1)
    | inr other ↦ rw other (h.0, Every-erase k d h.1)
  ]

  pub Every-lookup : (k : String) (v : V) (d : Dict V) → Every P d → lookup k d ≡ some v → P k v
  Every-lookup k v [] h e = ground arith
  Every-lookup k v ((j, w) ∷ d) h e = elim (Bool-cases (str_eq j k)) [
    | inl same ↦
        let found : w ≡ v = ground (arith, same) in
        subst (λ i. P i v) ((eq_iff j k).0 same) (subst (P j) found h.0)
    | inr other ↦ Every-lookup k v d h.1 (ground (arith, other))
  ]

pub Every-map {ℓ κ μ} :
    {V : Type ℓ} (P : String → V → Type κ) (Q : String → V → Type μ)
    → ((k : String) (v : V) → P k v → Q k v)
    → (d : Dict V) → Every P d
    → Every Q d
Every-map P Q f [] h = tt
Every-map P Q f ((k, v) ∷ d) h = (f k v h.0, Every-map P Q f d h.1)
