-- ===== src/Prelude/Tally.antt =====
-- Sums over a window of consecutive numbers, and over a full cycle of residues.
use Prim.Native.Nat.{ℕ, zero, suc, ◌+◌, ◌*◌, ◌%◌, ◌<◌}
use mathlib.Core.Path.{◌≡◌, refl, ap, ◌∙◌}
use native.Mathlib.Omega.{arith}
use native.Mathlib.Nat.{mod-eq_of_lt, add-mod_right}

-- p i + p (i + 1) + … , `n` terms.
unfoldable pub tally : (ℕ → ℕ) → ℕ → ℕ → ℕ
tally p i zero = 0
tally p i (suc n) = p i + tally p (i + 1) n

pub tally-cong :
    (p q : ℕ → ℕ) (i j n : ℕ)
    → ((k : ℕ) → k < n → p (i + k) ≡ q (j + k))
    → tally p i n ≡ tally q j n
unfolding tally
tally-cong p q i j zero h = refl
tally-cong p q i j (suc n) h =
    let rest =
      tally-cong p q (i + 1) (j + 1) n
        (λ k lt. ap p (omega arith) ∙ h (suc k) (omega arith) ∙ ap q (omega arith)) in
    let first : p i ≡ q j = ap p (omega arith) ∙ h 0 (omega arith) ∙ ap q (omega arith) in
    omega arith

tally_at : (p : ℕ → ℕ) {i j : ℕ} (n : ℕ) → i ≡ j → tally p i n ≡ tally p j n
tally_at p n e = ap (λ i. tally p i n) e

pub tally-add : (p : ℕ → ℕ) (i m n : ℕ) → tally p i (m + n) ≡ tally p i m + tally p (i + m) n
unfolding tally
tally-add p i zero n =
    let e : 0 + n ≡ n = omega arith in
    let z : i ≡ i + 0 = omega arith in rw e (tally_at p n z ∙ omega arith)
tally-add p i (suc m) n =
    let e : suc m + n ≡ suc (m + n) = omega arith in
    let ih = tally-add p (i + 1) m n in
    let at = tally_at p n (let f : i + 1 + m ≡ i + suc m = omega arith in f) in rw e (omega arith)

pub tally_const : (p : ℕ → ℕ) (v i n : ℕ) → ((k : ℕ) → k < n → p (i + k) ≡ v) → tally p i n ≡ n * v
unfolding tally
tally_const p v i zero h = omega arith
tally_const p v i (suc n) h =
    let rest = tally_const p v (i + 1) n (λ k lt. ap p (omega arith) ∙ h (suc k) (omega arith)) in
    let first : p i ≡ v = ap p (omega arith) ∙ h 0 (omega arith) in omega arith

-- Moving the window of a periodic function by one, and by any number, keeps its sum.
tally_shift : (p : ℕ → ℕ) (i n : ℕ) → p (i + n) ≡ p i → tally p (i + 1) n ≡ tally p i n
unfolding tally
tally_shift p i n e =
    let both = tally-add p i n 1 in
    let e1 : n + 1 ≡ suc n = omega arith in
    let n1 = ap (tally p i) e1 in
    let z : tally p (i + n + 1) 0 ≡ 0 = refl in
    let one : tally p (i + n) 1 ≡ p (i + n) + 0 = refl in omega arith

tally_periodic :
    (p : ℕ → ℕ) (n : ℕ) → ((i : ℕ) → p (i + n) ≡ p i) → (i : ℕ) → tally p i n ≡ tally p 0 n
tally_periodic p n h zero = refl
tally_periodic p n h (suc i) =
    let e : suc i ≡ i + 1 = omega arith in
    tally_at p n e ∙ tally_shift p i n (h i) ∙ tally_periodic p n h i

-- A window of `n` consecutive numbers meets each residue modulo `n` once.
pub tally-mod : (p : ℕ → ℕ) (n i : ℕ) → tally (λ t. p (t % n)) i n ≡ tally p 0 n
tally-mod p n i =
    tally_periodic (λ t. p (t % n)) n (λ j. ap p (add-mod_right j n)) i
    ∙ tally-cong (λ t. p (t % n)) p 0 0 n
        (λ k lt. ap p (ap (λ t. t % n) (omega arith) ∙ mod-eq_of_lt lt ∙ omega arith))
