-- ===== src/Ring/Assigned.antt =====
-- The store after the four assignments of Link.
use gbuf.Base.{ℕ, ◌≡◌, ◌≢◌, sym, ◌∙◌, some, get_elem?, set}
use gbuf.Ring.{Node, Store}
use gbuf.Ring.Seen.{
  if-true, if-false, view, view-prev, view-next, prev_of, prev_of-next, prev_of-prev,
}
use gbuf.Ring.Count.{same-==, other-==}

module _ {T : Type 0} (h : Store T) where
  -- What a walk sees after the four assignments.
  pub view-linked :
      (r s q p : ℕ) (n₀ n₁ n₂ n₃ : Node T)
      → get_elem? h r ≡ some n₀
      → (let h₁ = set h r (record n₀ { next = some s }) in
          let h₂ = set h₁ s (record n₁ { prev = some r }) in
          let h₃ = set h₂ q (record n₂ { prev = some p }) in
          let h₄ = set h₃ p (record n₃ { next = some q }) in
          get_elem? h₁ s ≡ some n₁
          → get_elem? h₂ q ≡ some n₂
          → get_elem? h₃ p ≡ some n₃
          → r ≢ p
          → (view h₄ p ≡ some (some q, n₃.value))
            × (view h₄ r ≡ some (some s, n₀.value))
            × ((i : ℕ) → i ≢ r → i ≢ p → view h₄ i ≡ view h i)
            × (view h₃ p ≡ view h p))
  view-linked r s q p n₀ n₁ n₂ n₃ at at₁ at₂ at₃ differ =
      let h₁ = set h r (record n₀ { next = some s }) in
      let h₂ = set h₁ s (record n₁ { prev = some r }) in
      let h₃ = set h₂ q (record n₂ { prev = some p }) in
      let last = λ (i : ℕ). view-next h₃ p n₃ (some q) i at₃ in
      let between =
        λ (i : ℕ). view-prev h₂ q n₂ (some p) i at₂ ∙ view-prev h₁ s n₁ (some r) i at₁ in
      let first = λ (i : ℕ). view-next h r n₀ (some s) i at in
      (
        last p ∙ if-true (some (some q, n₃.value)) (view h₃ p) (same-== p),
        last r
            ∙ if-false (some (some q, n₃.value)) (view h₃ r) (other-== p r λ e. differ (sym e))
            ∙ between r
            ∙ first r
            ∙ if-true (some (some s, n₀.value)) (view h r) (same-== r),
        (λ i i-r i-p.
            last i
            ∙ if-false (some (some q, n₃.value)) (view h₃ i) (other-== p i λ e. i-p (sym e))
            ∙ between i
            ∙ first i
            ∙ if-false (some (some s, n₀.value)) (view h i) (other-== r i λ e. i-r (sym e))),
        between p ∙ first p ∙ if-false (some (some s, n₀.value)) (view h p) (other-== r p differ),
      )

  -- Where the prev pointers lead after them.
  pub prev_of-linked :
      (r s q p : ℕ) (n₀ n₁ n₂ n₃ : Node T)
      → get_elem? h r ≡ some n₀
      → (let h₁ = set h r (record n₀ { next = some s }) in
          let h₂ = set h₁ s (record n₁ { prev = some r }) in
          let h₃ = set h₂ q (record n₂ { prev = some p }) in
          let h₄ = set h₃ p (record n₃ { next = some q }) in
          get_elem? h₁ s ≡ some n₁
          → get_elem? h₂ q ≡ some n₂
          → get_elem? h₃ p ≡ some n₃
          → ((i : ℕ) → i ≢ s → i ≢ q → prev_of h₄ i ≡ prev_of h i)
            × (s ≢ q → prev_of h₄ s ≡ some r)
            × (prev_of h₄ q ≡ some p))
  prev_of-linked r s q p n₀ n₁ n₂ n₃ at at₁ at₂ at₃ =
      let h₁ = set h r (record n₀ { next = some s }) in
      let h₂ = set h₁ s (record n₁ { prev = some r }) in
      let h₃ = set h₂ q (record n₂ { prev = some p }) in
      let last =
        λ (i : ℕ). prev_of-next h₃ p n₃ (some q) i at₃ ∙ prev_of-prev h₂ q n₂ (some p) i at₂ in
      let first = λ (i : ℕ). prev_of-prev h₁ s n₁ (some r) i at₁ in
      (
        (λ i i-s i-q.
            last i
            ∙ if-false (some p) (prev_of h₂ i) (other-== q i λ e. i-q (sym e))
            ∙ first i
            ∙ if-false (some r) (prev_of h₁ i) (other-== s i λ e. i-s (sym e))
            ∙ prev_of-next h r n₀ (some s) i at),
        (λ s-q.
            last s
            ∙ if-false (some p) (prev_of h₂ s) (other-== q s λ e. s-q (sym e))
            ∙ first s
            ∙ if-true (some r) (prev_of h₁ s) (same-== s)),
        last q ∙ if-true (some p) (prev_of h₂ q) (same-== q),
      )
