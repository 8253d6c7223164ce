-- ===== src/Executor/Load/Steps.antt =====
-- Computations that may raise.
use openeo_argoworkflows.Base.{Option, none, some, ◌≡◌, refl, ◌⊎◌, inl, inr, nat_eq}
use openeo_argoworkflows.Base.Text.{text_eq}
use openeo_argoworkflows.Executor.Query.{LoadError}
use openeo_argoworkflows.Executor.Load.{try_then, some_or}

module _ {A : Type 0} where
  pub try_then-inr :
      {B : Type 0} (e : LoadError ⊎ A) (f : A → LoadError ⊎ B) (b : B)
      → try_then e f ≡ inr b
      → (a : A) × (e ≡ inr a) × (f a ≡ inr b)
  try_then-inr (inl x) f b h = cc
  try_then-inr (inr a) f b h = (a, refl, h)

  pub some_or-inr : (x : LoadError) (o : Option A) (a : A) → some_or x o ≡ inr a → o ≡ some a
  some_or-inr x none a h = cc
  some_or-inr x (some b) a h = cc

  pub inr_injective : {a b : A} → ◌≡◌ {A = LoadError ⊎ A} (inr a) (inr b) → a ≡ b
  inr_injective h = cc
