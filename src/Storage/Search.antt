-- ===== src/Storage/Search.antt =====
-- sort.Search as the code uses it: where it ends, for any test.
use distributed_message_brok.Prelude.{
  ℕ, zero, suc, ◌+◌, ◌-◌, ◌/◌, ◌≤◌, ◌≡◌, ◌⊎◌, inl, inr, refl, Bool, true, false, arith, Bool-cases,
  ltb, ltb→lt,
}
use distributed_message_brok.Storage.Read.{search_loop, sort_search}

-- The test fails just below the place found, and holds there unless it is the end.
pub record Found (n : ℕ) (p : ℕ → Bool) (r : ℕ) : Type 0 where
  pub in_range : r ≤ n
  pub below : (r ≡ 0) ⊎ (p (r - 1) ≡ false)
  pub above : (r ≡ n) ⊎ (p r ≡ true)

search_loop-Found :
    (fuel n : ℕ) (p : ℕ → Bool) (i j : ℕ)
    → j - i ≤ fuel
    → i ≤ j
    → j ≤ n
    → (i ≡ 0) ⊎ (p (i - 1) ≡ false)
    → (j ≡ n) ⊎ (p j ≡ true)
    → Found n p (search_loop fuel p i j)
unfolding search_loop
search_loop-Found zero n p i j f h hn lo hi =
    let e : i ≡ j = omega arith in record { in_range = omega arith; below = lo; above = rw e hi }
search_loop-Found (suc fuel) n p i j f h hn lo hi = elim (Bool-cases (ltb i j)) [
  | inr done ↦ rw done (
      let e : i ≡ j = ground arith in
      record { in_range = omega arith; below = lo; above = rw e hi })
  | inl go ↦ elim (Bool-cases (p ((i + j) / 2))) [
    | inl y ↦
        rw (go, y)
          (search_loop-Found fuel n p i ((i + j) / 2) (omega (arith, ltb→lt i j go))
            (omega (arith, ltb→lt i j go)) (omega arith) lo (inr y))
    | inr no_ ↦
        rw (go, no_)
          (search_loop-Found fuel n p ((i + j) / 2 + 1) j (omega (arith, ltb→lt i j go))
            (omega (arith, ltb→lt i j go)) hn (inr (rw (plus_one ((i + j) / 2)) no_)) hi)
  ]
]
  where
    plus_one : (k : ℕ) → k + 1 - 1 ≡ k
    plus_one k = omega arith

pub sort_search-Found : (n : ℕ) (p : ℕ → Bool) → Found n p (sort_search n p)
unfolding sort_search
sort_search-Found n p =
    search_loop-Found n n p 0 n (omega arith) (omega arith) (omega arith) (inl refl) (inl refl)
