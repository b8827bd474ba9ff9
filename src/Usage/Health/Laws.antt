-- ===== src/Usage/Health/Laws.antt =====
-- The blocks of the health grid tile the window, and count each row of the window once.
use daili_usage_keeper_north.Base.{
  ℕ, ◌+◌, ◌-◌, ◌*◌, ◌/◌, ◌≤◌, ◌<◌, ◌≡◌, refl, zero, suc, Bool, List, [], ◌∷◌, filter, length, arith,
  length-filter-add, ◌∙◌, ap,
}
use daili_usage_keeper_north.Usage.{DetailRecord}
use daili_usage_keeper_north.Usage.Health.{
  Block, succeeded, failed_row, in_block, window_ms, block_of, blocks_from,
  calculate_service_health_data,
}

abbrev pub sum_of : (Block → ℕ) → List Block → ℕ
sum_of f [] = 0
sum_of f (b ∷ bs) = f b + sum_of f bs

-- The number of rows in a window that pass a test.
abbrev pub count_in : (DetailRecord → Bool) → ℕ → ℕ → List DetailRecord → ℕ
count_in p start stop details = length (filter p (filter (in_block start stop) details))

count_in_add :
    (p : DetailRecord → Bool) (a b c : ℕ) (details : List DetailRecord)
    → a ≤ b
    → b ≤ c
    → count_in p a b details + count_in p b c details ≡ count_in p a c details
count_in_add p a b c [] h k = omega arith
count_in_add p a b c (d ∷ ds) h k = ground (arith, count_in_add p a b c ds h k)

count_in_none :
    (p : DetailRecord → Bool) (a : ℕ) (details : List DetailRecord) → count_in p a a details ≡ 0
count_in_none p a [] = omega arith
count_in_none p a (d ∷ ds) = ground (arith, count_in_none p a ds)

no_blocks : (start : ℕ) → start + 0 * window_ms ≡ start
no_blocks start = omega arith

next_start : (start n : ℕ) → start + window_ms + n * window_ms ≡ start + suc n * window_ms
next_start start n = omega arith

module _ (p : DetailRecord → Bool) (f : Block → ℕ) where
  -- A count of the blocks that each block takes from its own rows is a count of the whole window.
  sum_of-blocks_from :
      ((details : List DetailRecord) (start : ℕ)
        → f (block_of details start) ≡ count_in p start (start + window_ms) details)
      → (details : List DetailRecord) (start n : ℕ)
      → sum_of f (blocks_from details start n) ≡ count_in p start (start + n * window_ms) details
  unfolding blocks_from
  sum_of-blocks_from each details start zero = omega (
    arith,
    count_in_none p start details,
    ap (λ stop. count_in p start stop details) (no_blocks start),
  )
  sum_of-blocks_from each details start (suc n) = omega (
    arith,
    each details start,
    sum_of-blocks_from each details (start + window_ms) n,
    count_in_add p start (start + window_ms) (start + suc n * window_ms) details (omega arith)
        (omega arith),
    ap (λ stop. count_in p (start + window_ms) stop details) (next_start start n),
  )

block_of-success :
    (details : List DetailRecord) (start : ℕ)
    → (block_of details start).success ≡ count_in succeeded start (start + window_ms) details
unfolding block_of
block_of-success details start = refl

block_of-failure :
    (details : List DetailRecord) (start : ℕ)
    → (block_of details start).failure ≡ count_in failed_row start (start + window_ms) details
unfolding block_of
block_of-failure details start = refl

abbrev oldest : ℕ → ℕ
oldest now = now / window_ms * window_ms + window_ms - 672 * window_ms

window_of :
    (now : ℕ)
    → 672 * window_ms ≤ now
    → oldest now + 672 * window_ms ≡ now / window_ms * window_ms + window_ms
window_of now h = omega arith

-- If it is at least 672 quarters of an hour after 1970: the window of the grid is 672 quarters of an hour of which the last one holds the present; the
-- blocks together count each row of the window once, as a success or as a failure; and the two totals
-- count every row there is.
pub calculate_service_health_data_lem :
    (now : ℕ) (details : List DetailRecord)
    → 672 * window_ms ≤ now
    → let health = calculate_service_health_data now details in
      (health.window_end ≡ health.window_start + 672 * window_ms)
      × (now < health.window_end)
      × (health.window_end ≤ now + window_ms)
      × (sum_of (λ b. b.success) health.block_details
          ≡ count_in succeeded health.window_start health.window_end details)
      × (sum_of (λ b. b.failure) health.block_details
          ≡ count_in failed_row health.window_start health.window_end details)
      × (health.total_success + health.total_failure ≡ length details)
unfolding calculate_service_health_data
calculate_service_health_data_lem now details h = (
  omega arith,
  omega arith,
  omega arith,
  sum_of-blocks_from succeeded (λ b. b.success) block_of-success details (oldest now) 672
      ∙ ap (λ stop. count_in succeeded (oldest now) stop details) (window_of now h),
  sum_of-blocks_from failed_row (λ b. b.failure) block_of-failure details (oldest now) 672
      ∙ ap (λ stop. count_in failed_row (oldest now) stop details) (window_of now h),
  omega (arith, length-filter-add failed_row details),
)
