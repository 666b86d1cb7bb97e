-- ===== src/Syscall/Fibonacci.antt =====
-- `syscall_fibonacci` of pintos/src/userprog/syscall.c.
use sogang_pint_os.Common.{ℕ, zero, suc, ◌+◌, ◌%◌, ◌^◌, ◌≡◌, refl, ap, ◌∙◌, arith}
use sogang_pint_os.Common.Int.{pos}
use sogang_pint_os.FixedPoint.{signed32}
use sogang_pint_os.Syscall.{fibonacci_loop, syscall_fibonacci}

-- The Fibonacci numbers.
abbrev pub fibonacci : ℕ → ℕ
fibonacci zero = 0
fibonacci (suc zero) = 1
fibonacci (suc (suc n)) = fibonacci (suc n) + fibonacci n

-- The loop carries two numbers on, modulo the word.
loop_lem :
    (n k : ℕ)
    → fibonacci_loop n (fibonacci k % 2 ^ 32) (fibonacci (suc k) % 2 ^ 32)
      ≡ fibonacci (suc (n + k)) % 2 ^ 32
unfolding fibonacci_loop
loop_lem zero k = let here : 0 + k ≡ k = omega arith in rw here
loop_lem (suc n) k =
    let sum : (fibonacci (suc k) % 2 ^ 32 + fibonacci k % 2 ^ 32) % 2 ^ 32
        ≡ fibonacci (suc (suc k)) % 2 ^ 32 =
      omega arith in
    let place : n + suc k ≡ suc n + k = omega arith in
    ap (λ w. fibonacci_loop n (fibonacci (suc k) % 2 ^ 32) w) sum
    ∙ loop_lem n (suc k)
    ∙ ap (λ i. fibonacci (suc i) % 2 ^ 32) place

-- For every `int` that is not negative, `syscall_fibonacci` gives the Fibonacci number as a 32-bit word,
-- and so the number itself while it is below 2 ^ 31.
pub syscall_fibonacci_lem : (n : ℕ) → syscall_fibonacci (pos n) ≡ signed32 (fibonacci n % 2 ^ 32)
unfolding syscall_fibonacci
syscall_fibonacci_lem zero = refl
syscall_fibonacci_lem (suc zero) = refl
syscall_fibonacci_lem (suc (suc n)) =
    let place : suc n + 0 ≡ suc n = omega arith in
    ap signed32 (loop_lem (suc n) 0 ∙ ap (λ i. fibonacci (suc i) % 2 ^ 32) place)
