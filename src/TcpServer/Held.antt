-- ===== src/TcpServer/Held.antt =====
-- Sums over the accept loops of a tcp_server.
use corosio.Base.{
  ℕ, zero, suc, ◌+◌, ◌≤◌, ◌<◌, ◌≡◌, refl, ap, [], ◌∷◌, count, ltb, update, arith, Bool-cases, inl,
  inr,
}
use corosio.TcpServer.Loops.{Loop, waiting, ended, woken, accepting, returning}

-- How often a loop holds this worker.
abbrev pub holds : ℕ → Loop → ℕ
holds z (woken w) = count z (w ∷ [])
holds z (accepting w) = count z (w ∷ [])
holds z (returning w) = count z (w ∷ [])
holds z _ = 0

abbrev pub live : Loop → ℕ
live ended = 0
live _ = 1

abbrev pub is_waiting : Loop → ℕ
is_waiting waiting = 1
is_waiting _ = 0

-- The sum over the loops below `n`.
abbrev pub total : (Loop → ℕ) → ℕ → (ℕ → Loop) → ℕ
total f zero ls = 0
total f (suc n) ls = total f n ls + f (ls n)

total-beyond :
    (f : Loop → ℕ) (n : ℕ) (ls : ℕ → Loop) (i : ℕ) (l : Loop)
    → n ≤ i
    → total f n (update ls i l) ≡ total f n ls
total-beyond f zero ls i l h = refl
total-beyond f (suc n) ls i l h = ground (arith, total-beyond f n ls i l)

pub total-update :
    (f : Loop → ℕ) (n : ℕ) (ls : ℕ → Loop) (i : ℕ) (l : Loop)
    → i < n
    → total f n (update ls i l) + f (ls i) ≡ total f n ls + f l
total-update f zero ls i l h = absurd (omega arith)
total-update f (suc n) ls i l h = elim (Bool-cases (ltb i n)) [
  | inl e ↦ ground (arith, total-update f n ls i l)
  | inr e ↦ ground (arith, total-beyond f n ls i l)
]

pub total-ge : (f : Loop → ℕ) (n : ℕ) (ls : ℕ → Loop) (i : ℕ) → i < n → f (ls i) ≤ total f n ls
total-ge f zero ls i h = absurd (omega arith)
total-ge f (suc n) ls i h = elim (Bool-cases (ltb i n)) [
  | inl e ↦ ground (arith, total-ge f n ls i)
  | inr e ↦ ground arith
]

pub total-zero :
    (f : Loop → ℕ) (n : ℕ) (ls : ℕ → Loop) → ((i : ℕ) → i < n → f (ls i) ≡ 0) → total f n ls ≡ 0
total-zero f zero ls h = refl
total-zero f (suc n) ls h = ground (arith, total-zero f n ls (λ i l. h i (omega arith)), h n)

pub total-all :
    (f : Loop → ℕ) (n : ℕ) (ls : ℕ → Loop) → ((i : ℕ) → i < n → f (ls i) ≡ 1) → total f n ls ≡ n
total-all f zero ls h = refl
total-all f (suc n) ls h = ground (arith, total-all f n ls (λ i l. h i (omega arith)), h n)

pub total-next :
    (f : Loop → ℕ) (n : ℕ) (ls : ℕ → Loop) → total f (n + 1) ls ≡ total f n ls + f (ls n)
total-next f n ls = ap (λ k. total f k ls) {x = n + 1} {y = suc n} (omega arith)
