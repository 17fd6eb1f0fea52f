-- ===== src/Sdk/Mask/Bits.antt =====
-- The bit test on the masks that the server sends, by checking them all.
use Prim.Native.Nat.{◌^◌}
use arcops.Prelude.{
  ◌⊎◌, inl, inr, ℕ, zero, suc, ◌/◌, ◌%◌, ◌<◌, ◌≡◌, refl, Bool, true, false, ◌&&◌, arith, eqb,
}
use arcops.Sdk.Mask.{pos, has_bit}

lt_or_eq : {k top : ℕ} → k < suc top → (k < top) ⊎ (k ≡ top)
lt_or_eq h = ground arith

-- A test passes on every number under a bound.
module _ (test : ℕ → Bool) where
  passes_under : ℕ → Bool
  passes_under zero = true
  passes_under (suc top) = passes_under top && test top

  test_of_passes_under : {k top : ℕ} → k < top → passes_under top ≡ true → test k ≡ true
  unfolding passes_under
  test_of_passes_under {top = zero} small passed = absurd (omega arith)
  test_of_passes_under {top = suc top} small passed = elim (lt_or_eq small) [
    | inl below ↦ test_of_passes_under below (ground arith)
    | inr last ↦ rw last (ground arith)
  ]

abbrev same : Bool → Bool → Bool
same true b = b
same false true = false
same false false = true

same_sound : (a b : Bool) → same a b ≡ true → a ≡ b
same_sound a b h = ground arith

abbrev agrees : ℕ → ℕ → Bool
agrees m k = same (has_bit (pos (suc m)) (2 ^ k)) (eqb (suc m / 2 ^ k % 2) 1)

bit_table : passes_under (λ m. passes_under (agrees m) 6) 63 ≡ true
unfolding passes_under has_bit
bit_table = refl

-- A mask from 1 to 63 has capability `k` exactly when its binary digit `k` is 1.
pub has_bit-digit :
    (m k : ℕ) → m < 63 → k < 6 → has_bit (pos (suc m)) (2 ^ k) ≡ eqb (suc m / 2 ^ k % 2) 1
has_bit-digit m k hm hk =
    let row = test_of_passes_under (λ n. passes_under (agrees n) 6) hm bit_table in
    same_sound (has_bit (pos (suc m)) (2 ^ k)) (eqb (suc m / 2 ^ k % 2) 1)
      (test_of_passes_under (agrees m) hk row)
