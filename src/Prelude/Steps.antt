-- ===== src/Prelude/Steps.antt =====
-- Runs of a step relation, and what every step keeps.
module _ {A : Type 0} (Step : A → A → Type 0) where
  pub data Reaches (start : A) : A → Type 0 where
    here : Reaches start start
    next : {a b : A} → Reaches start a → Step a b → Reaches start b

  pub Reaches-keeps :
      {start end : A} (P : A → Type 0)
      → ((a b : A) → Step a b → P a → P b)
      → Reaches start end
      → P start
      → P end
  Reaches-keeps P keep here h = h
  Reaches-keeps P keep (next {a = a} {b = b} run step) h =
      keep a b step (Reaches-keeps P keep run h)
