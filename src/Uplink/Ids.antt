-- ===== src/Uplink/Ids.antt =====
-- The ids of requests: none comes again while one of the next 2 ^ 15 is in use.
use df.Prelude.{ℕ, zero, suc, ◌+◌, ◌%◌, ◌^◌, ◌≤◌, ◌<◌, ◌≡◌, ◌≢◌, ap, ◌∙◌, arith}
use df.Uplink.{next_ns_req_id}

-- The id that call number `n` returns, counted from 0, where the first finds this seed.
unfoldable pub issued : (ℕ → ℕ) → ℕ → ℕ → ℕ
issued next zero seed = next seed
issued next (suc n) seed = next (issued next n seed)

next_ns_req_id-mod : (k : ℕ) → next_ns_req_id (k % (2 ^ 15 + 1) + 1) ≡ (k + 1) % (2 ^ 15 + 1) + 1
unfolding next_ns_req_id
next_ns_req_id-mod k = ground arith

next_ns_req_id-mod_first :
    (seed : ℕ) → seed ≤ 2 ^ 15 + 1 → next_ns_req_id seed ≡ seed % (2 ^ 15 + 1) + 1
unfolding next_ns_req_id
next_ns_req_id-mod_first seed h = ground arith

issued_lem :
    (n seed : ℕ) → seed ≤ 2 ^ 15 + 1 → issued next_ns_req_id n seed ≡ (seed + n) % (2 ^ 15 + 1) + 1
unfolding issued
issued_lem zero seed h = next_ns_req_id-mod_first seed h ∙ omega arith
issued_lem (suc n) seed h =
    ap next_ns_req_id (issued_lem n seed h) ∙ next_ns_req_id-mod (seed + n) ∙ omega arith

-- From a seed that some call has left, or 0, every id is positive and at most 2 ^ 15 + 1, so that the
-- reply to it is dispatched as a reply, and any two of 2 ^ 15 + 1 calls in a row return different ids.
pub issued_distinct :
    (seed i j : ℕ)
    → seed ≤ 2 ^ 15 + 1
    → i < j
    → j ≤ i + 2 ^ 15
    → (1 ≤ issued next_ns_req_id i seed)
      × (issued next_ns_req_id i seed ≤ 2 ^ 15 + 1)
      × (issued next_ns_req_id i seed ≢ issued next_ns_req_id j seed)
issued_distinct seed i j h before near =
    let p = issued_lem i seed h in
    let q = issued_lem j seed h in (omega (arith, p), omega (arith, p), λ e. omega (arith, p, q, e))
