-- ===== src/TcpServer/Idle.antt =====
-- What the links of a tcp_server's idle list represent.
use corosio.Base.{ℕ, ◌<◌, ◌≡◌, sym, subst, List, [], ◌∷◌, arith, count}

-- From the head the links lead through these workers and end.
abbrev pub Leads : (ℕ → ℕ) → ℕ → List ℕ → Type 0
Leads next h [] = h ≡ 0
Leads next h (x ∷ xs) = (h ≡ x) × (0 < x) × Leads next (next x) xs

-- Links that agree on the workers of the list lead through them too.
pub Leads-frame :
    (next next' : ℕ → ℕ) (h : ℕ) (xs : List ℕ)
    → ((z : ℕ) → 0 < count z xs → next' z ≡ next z)
    → Leads next h xs
    → Leads next' h xs
Leads-frame next next' h [] same l = l
Leads-frame next next' h (x ∷ xs) same l = (
  l.0,
  l.1,
  subst (λ k. Leads next' k xs) (sym (same x (ground arith)))
      (Leads-frame next next' (next x) xs (λ z p. same z (ground arith)) l.2),
)
