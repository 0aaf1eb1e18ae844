-- ===== src/Dispatcher/Mask/Bits.antt =====
-- The bits of a proceed-on mask.
use go_bpfman.Prelude.{◌≡◌, refl, ℕ, zero, suc, ◌+◌, ◌*◌, ◌/◌, ◌%◌, false, ◌||◌, ◌==◌, arith}
use go_bpfman.Dispatcher.Mask.{has_bit, set_bit}

half : (x m : ℕ) → (x * 2 + m % 2) / 2 ≡ x
half x m = omega arith

parity : (x m : ℕ) → (x * 2 + m % 2) % 2 ≡ m % 2
parity x m = omega arith

half_odd : (x : ℕ) → (x * 2 + 1) / 2 ≡ x
half_odd x = omega arith

pub has_bit-set_bit :
    (bit : ℕ) (mask b : ℕ) → has_bit (set_bit mask bit) b ≡ (bit == b || has_bit mask b)
unfolding has_bit set_bit
has_bit-set_bit zero mask zero = ground arith
has_bit-set_bit zero mask (suc b) = rw (half_odd (mask / 2)) (ground arith)
has_bit-set_bit (suc bit) mask zero = rw (parity (set_bit (mask / 2) bit) mask) (ground arith)
has_bit-set_bit (suc bit) mask (suc b) =
    rw (half (set_bit (mask / 2) bit) mask) (ground (arith, has_bit-set_bit bit (mask / 2) b))

pub has_bit-zero : (b : ℕ) → has_bit 0 b ≡ false
unfolding has_bit
has_bit-zero zero = refl
has_bit-zero (suc b) = has_bit-zero b
