-- ===== src/Pool/Destroy.antt =====
-- `qp_pool_destroy`: when it refuses, and what it frees.
use qphi.Common.{
  ℕ, ◌≡◌, ◌≢◌, ◌⊎◌, inl, inr, refl, Bool, true, false, List, [], ◌∷◌, arith, if◌then◌else◌,
}
use qphi.Pool.{Memory, success, error, pool_destroy, pool_is_inited, pool_is_alloced}
use qphi.Pool.Invariant.{Elements, IsPool}

-- what a destroyed pool has given back: its room, and itself if it was allocated
abbrev pub released : ℕ → Memory → List ℕ
released p m =
    if (m.pool p).is_alloced then p ∷ (m.pool p).room ∷ m.freed else (m.pool p).room ∷ m.freed

module _ (m : Memory) (p : ℕ) where
  destroy-busy :
      (b : Elements) (x : ℕ) (rest : List ℕ)
      → IsPool m p b
      → b.used ≡ x ∷ rest
      → pool_destroy p false m ≡ (error, m)
  unfolding pool_destroy pool_is_inited
  destroy-busy b x rest v some_used =
      ground (arith, v.inited, v.counted, v.total, v.placed.set, some_used)

  destroy-done :
      (b : Elements) (force : Bool)
      → IsPool m p b
      → (force ≡ true) ⊎ (b.used ≡ [])
      → let (s, m') = pool_destroy p force m in
        (s ≡ success) × (m'.freed ≡ released p m) × ((m'.pool p).is_inited ≡ false)
  unfolding pool_destroy pool_is_inited pool_is_alloced
  destroy-done b force v idle =
      ground (arith, v.inited, v.counted, v.total, v.placed.set, v.placed.room_set, idle)

  -- `qp_pool_destroy` of a pool that holds `b` refuses, and changes nothing, if it is not forced and
  -- the client still has a block. Otherwise it succeeds, frees the room once and, if the pool was
  -- allocated, the pool once, and leaves it marked as not initialised.
  pub pool_destroy_lem :
      (b : Elements) (force : Bool)
      → IsPool m p b
      → ((force ≡ false) × (b.used ≢ []) × (pool_destroy p force m ≡ (error, m)))
        ⊎ (((force ≡ true) ⊎ (b.used ≡ []))
            × (let (s, m') = pool_destroy p force m in
                (s ≡ success) × (m'.freed ≡ released p m) × ((m'.pool p).is_inited ≡ false)))
  pool_destroy_lem b true v = inr (inl refl, destroy-done b true v (inl refl))
  pool_destroy_lem b false v = go b.used refl
    where
      go :
          (used : List ℕ)
          → b.used ≡ used
          → ((◌≡◌ {A = Bool} false false) × (b.used ≢ []) × (pool_destroy p false m ≡ (error, m)))
            ⊎ (((◌≡◌ {A = Bool} false true) ⊎ (b.used ≡ []))
                × (let (s, m') = pool_destroy p false m in
                    (s ≡ success) × (m'.freed ≡ released p m) × ((m'.pool p).is_inited ≡ false)))
      go [] e = inr (inr e, destroy-done b false v (inr e))
      go (x ∷ rest) e = inl (refl, (λ none_used. cc), destroy-busy b x rest v e)
