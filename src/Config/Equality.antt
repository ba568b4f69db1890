-- ===== src/Config/Equality.antt =====
-- reflect.DeepEqual on the types of the config that internal/config/diff.go compares. A map is compared
-- as the list that stands for it here.
use native.Mathlib.Decide.{ℕ_discrete}
use pathosd.Common.{
  String, Bool, true, false, List, refl, ◌≡◌, ◌==◌, eq_iff, arith, Bool-cases, inl, inr,
}
use pathosd.Common.Int.{ℤ}
use pathosd.Config.Sections.{
  RouterConfig, ApiConfig, LoggingConfig, OtelConfig, PathsConfig, BgpConfig, NeighborConfig,
}
use pathosd.Config.Checks.{CheckConfig}
use pathosd.Config.Vip.{VipConfig, PolicyConfig}

-- reflect.DeepEqual, given how two values of the type are compared
unfoldable pub deep_equal {ℓ} : {A : Type ℓ} → Discrete A → A → A → Bool
deep_equal d a b = elim (d a b) [ yes e ↦ true | no n ↦ false ]

pub deep_equal-eq {ℓ} : {A : Type ℓ} (d : Discrete A) (a b : A) → deep_equal d a b ≡ true → a ≡ b
unfolding deep_equal
deep_equal-eq d a b h = ground arith

pub deep_equal_refl {ℓ} : {A : Type ℓ} (d : Discrete A) (a : A) → deep_equal d a a ≡ true
unfolding deep_equal
deep_equal_refl d a = reflexive (d a a)
  where
    reflexive : (e : Dec (a ≡ a)) → (elim e [ yes p ↦ true | no n ↦ false ]) ≡ true
    reflexive (yes p) = refl
    reflexive (no n) = absurd (n refl)

pub text_discrete : Discrete String
text_discrete s t = elim (Bool-cases (s == t)) [
  | inl same ↦ yes ((eq_iff s t).0 same)
  | inr other ↦ no (λ e. ground (arith, eq_iff s t))
]

pub ℤ-Discrete : Discrete ℤ
ℤ-Discrete = hlevel (ℕ_discrete)

pub CheckConfig-Discrete : Discrete CheckConfig
CheckConfig-Discrete = hlevel (text_discrete, ℕ_discrete, ℤ-Discrete)

pub PolicyConfig-Discrete : Discrete PolicyConfig
PolicyConfig-Discrete = hlevel (text_discrete, ℕ_discrete, ℤ-Discrete)

pub VipConfig-Discrete : Discrete VipConfig
VipConfig-Discrete = hlevel (text_discrete, CheckConfig-Discrete, PolicyConfig-Discrete)

pub NeighborConfig-Discrete : Discrete NeighborConfig
NeighborConfig-Discrete = hlevel (text_discrete, ℕ_discrete, ℤ-Discrete)

pub RouterConfig-Discrete : Discrete RouterConfig
RouterConfig-Discrete = hlevel (text_discrete, ℕ_discrete, ℤ-Discrete)

pub BgpConfig-Discrete : Discrete BgpConfig
BgpConfig-Discrete = hlevel (text_discrete, NeighborConfig-Discrete, ℤ-Discrete)

pub OtelConfig-Discrete : Discrete OtelConfig
OtelConfig-Discrete = hlevel (text_discrete)

pub ApiConfig-Discrete : Discrete ApiConfig
ApiConfig-Discrete = hlevel (text_discrete, ℤ-Discrete)

pub LoggingConfig-Discrete : Discrete LoggingConfig
LoggingConfig-Discrete = hlevel (text_discrete)

pub PathsConfig-Discrete : Discrete PathsConfig
PathsConfig-Discrete = hlevel (text_discrete)

pub list_discrete : {A : Type 0} → Discrete A → Discrete (List A)
list_discrete d = hlevel (d)
