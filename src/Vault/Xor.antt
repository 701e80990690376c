-- ===== src/Vault/Xor.antt =====
-- XOR with the same byte twice gives the byte back (kms_provider.go).
use Prim.Native.Nat.{bit_xor, digits, differ, bit_xor-bitwise}
use bonipam.Common.{ℕ, zero, suc, ◌+◌, ◌*◌, ◌/◌, ◌%◌, ◌≤◌, ◌<◌, ◌≡◌, refl, sym, ◌∙◌, ap, arith}

-- The digits of `bit_xor`, with a count of digits to go.
xor_digits : ℕ → ℕ → ℕ → ℕ
xor_digits n a b = digits (λ b. b) differ n a b

xor_digits-zero : (n b : ℕ) → xor_digits n 0 b ≡ b
unfolding xor_digits
xor_digits-zero zero b = refl
xor_digits-zero (suc n) b = refl

xor_digits_step :
    (n a b : ℕ) → xor_digits (suc n) a b ≡ xor_digits n (a / 2) (b / 2) * 2 + differ (a % 2) (b % 2)
unfolding xor_digits
xor_digits_step n zero b = omega (arith, xor_digits-zero n (b / 2))
xor_digits_step n (suc a) b = refl

-- More digits to go than the first number needs make no difference.
xor_digits_fuel : (n m a b : ℕ) → a ≤ n → a ≤ m → xor_digits n a b ≡ xor_digits m a b
xor_digits_fuel n m zero b p q = xor_digits-zero n b ∙ sym (xor_digits-zero m b)
xor_digits_fuel zero m (suc a) b p q = absurd (omega arith)
xor_digits_fuel (suc n) zero (suc a) b p q = absurd (omega arith)
xor_digits_fuel (suc n) (suc m) (suc a) b p q =
    rw (xor_digits_step n (suc a) b, xor_digits_step m (suc a) b)
      (rw (xor_digits_fuel n m (suc a / 2) (b / 2) (omega arith) (omega arith)) refl)

differ_digits : (x y : ℕ) → x < 2 → y < 2 → (differ (differ x y) y ≡ x) × (differ x y < 2)
differ_digits zero zero p q = (refl, omega arith)
differ_digits zero (suc zero) p q = (refl, omega arith)
differ_digits (suc zero) zero p q = (refl, omega arith)
differ_digits (suc zero) (suc zero) p q = (refl, omega arith)
differ_digits (suc (suc x)) y p q = absurd (omega arith)
differ_digits x (suc (suc y)) p q = absurd (omega arith)

xor_digits_twice : (n a b : ℕ) → a ≤ n → b ≤ n → xor_digits n (xor_digits n a b) b ≡ a
xor_digits_twice zero zero zero p q = rw (xor_digits-zero zero 0) (xor_digits-zero zero 0)
xor_digits_twice zero (suc a) b p q = absurd (omega arith)
xor_digits_twice zero zero (suc b) p q = absurd (omega arith)
xor_digits_twice (suc n) a b p q =
    let low = xor_digits n (a / 2) (b / 2) in
    let digit = differ (a % 2) (b % 2) in
    let (back, small) = differ_digits (a % 2) (b % 2) (omega arith) (omega arith) in
    let half : (low * 2 + digit) / 2 ≡ low = omega (arith, small) in
    let rest : (low * 2 + digit) % 2 ≡ digit = omega (arith, small) in
    rw (xor_digits_step n a b, xor_digits_step n (low * 2 + digit) b, half, rest)
      (omega (arith, back, xor_digits_twice n (a / 2) (b / 2) (omega arith) (omega arith)))

bit_xor_digits : (a b : ℕ) → bit_xor a b ≡ xor_digits a a b
unfolding xor_digits
bit_xor_digits a b = bit_xor-bitwise a b

pub bit_xor_twice : (a b : ℕ) → bit_xor (bit_xor a b) b ≡ a
bit_xor_twice a b =
    let x = bit_xor a b in
    let n = a + b + x in
    let first : bit_xor a b ≡ xor_digits n a b =
      bit_xor_digits a b ∙ xor_digits_fuel a n a b (omega arith) (omega arith) in
    let second : bit_xor x b ≡ xor_digits n x b =
      bit_xor_digits x b ∙ xor_digits_fuel x n x b (omega arith) (omega arith) in
    second ∙ ap (λ y. xor_digits n y b) first ∙ xor_digits_twice n a b (omega arith) (omega arith)
