-- ===== src/Head/ScaleLaws.antt =====
-- A quantized scale (`head_get_fixed_scale` of src/head.c) is a multiple of the step, and as near to the
-- scale asked for as the strategy says.
use way_displays.Prelude.{
  sym, subst, ℕ, ◌+◌, ◌*◌, ◌/◌, ◌≤◌, ◌<◌, ◌≡◌, ◌⊎◌, inl, inr, pos, ◌*ℤ◌, Option, some, arith,
}
use way_displays.Enums.{ScaleRoundStrategy}
use way_displays.Head.Scale.{quantize}

-- The bases that the configuration can have.
abbrev pub IsBase : ℕ → Type 0
IsBase b = (b ≡ 1) ⊎ (b ≡ 2) ⊎ (b ≡ 4) ⊎ (b ≡ 8)

-- How far the scale `r` may be from the scale `f`, at a step.
abbrev pub Near : Option ScaleRoundStrategy → ℕ → ℕ → ℕ → Type 0
Near (some ScaleRoundStrategy.down) step f r = (r ≤ f) × (f < r + step)
Near (some ScaleRoundStrategy.up) step f r = (f ≤ r) × (r < f + step)
Near _ step f r = (2 * r ≤ 2 * f + step) × (2 * f ≤ 2 * r + step)

-- How many steps the quantized scale has.
abbrev pub steps : Option ScaleRoundStrategy → ℕ → ℕ → ℕ
steps (some ScaleRoundStrategy.down) b f = f * b / 256
steps (some ScaleRoundStrategy.up) b f = (f * b + 255) / 256
steps _ b f = (2 * (f * b) + 256) / 512

abbrev Quantized : Option ScaleRoundStrategy → ℕ → ℕ → Type 0
Quantized s b f =
    (quantize s b (pos f) ≡ pos (steps s b f * (256 / b)))
    × Near s (256 / b) f (steps s b f * (256 / b))

at_1 : (s : Option ScaleRoundStrategy) (f : ℕ) → Quantized s 1 f
unfolding quantize ◌*ℤ◌
at_1 (some ScaleRoundStrategy.down) f = ground arith
at_1 (some ScaleRoundStrategy.up) f = ground arith
at_1 _ f = ground arith

at_2 : (s : Option ScaleRoundStrategy) (f : ℕ) → Quantized s 2 f
unfolding quantize ◌*ℤ◌
at_2 (some ScaleRoundStrategy.down) f = ground arith
at_2 (some ScaleRoundStrategy.up) f = ground arith
at_2 _ f = ground arith

at_4 : (s : Option ScaleRoundStrategy) (f : ℕ) → Quantized s 4 f
unfolding quantize ◌*ℤ◌
at_4 (some ScaleRoundStrategy.down) f = ground arith
at_4 (some ScaleRoundStrategy.up) f = ground arith
at_4 _ f = ground arith

at_8 : (s : Option ScaleRoundStrategy) (f : ℕ) → Quantized s 8 f
unfolding quantize ◌*ℤ◌
at_8 (some ScaleRoundStrategy.down) f = ground arith
at_8 (some ScaleRoundStrategy.up) f = ground arith
at_8 _ f = ground arith

-- For each base, the quantized scale is a multiple of 256 / base; rounded down it is at most the
-- scale asked for and less than a step below, rounded up at least that and less than a step above,
-- and otherwise at most half a step away.
pub quantize-Near :
    (s : Option ScaleRoundStrategy) (b f : ℕ)
    → IsBase b
    → (quantize s b (pos f) ≡ pos (steps s b f * (256 / b)))
      × Near s (256 / b) f (steps s b f * (256 / b))
quantize-Near s b f (inl e) = subst (λ b. Quantized s b f) (sym e) (at_1 s f)
quantize-Near s b f (inr (inl e)) = subst (λ b. Quantized s b f) (sym e) (at_2 s f)
quantize-Near s b f (inr (inr (inl e))) = subst (λ b. Quantized s b f) (sym e) (at_4 s f)
quantize-Near s b f (inr (inr (inr e))) = subst (λ b. Quantized s b f) (sym e) (at_8 s f)
