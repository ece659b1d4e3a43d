-- ===== src/Proxy/Tests.antt =====
-- Runs of the proxy.
use df.Prelude.{flat, ℕ, ◌≡◌, refl, arith, true, false, List, [], ◌∷◌, ◌++◌}
use df.Proxy.{Pipe, Proxy, drains, fills, fill_down, drain_down, Reach, here, next}
use df.Proxy.Order.{copied_in_order}
use df.Proxy.Loss.{all_lost}

abbrev sample_pipe : Pipe
sample_pipe = record {
  source = (1 ∷ 2 ∷ []) ∷ (3 ∷ []) ∷ [];
  channel = [];
  written = [];
  reading = true;
}

abbrev sample_proxy : Proxy
sample_proxy = record {
  down = sample_pipe;
  up = sample_pipe;
  errors = 0;
  writing_up = true;
  returned = false;
}

abbrev sample_later : Proxy
sample_later = record sample_proxy {
  down = record { source = (3 ∷ []) ∷ []; channel = []; written = 1 ∷ 2 ∷ []; reading = true };
}

sample-Reach : Reach sample_proxy sample_later
sample-Reach =
    next (next here (fill_down (fills (1 ∷ 2 ∷ []) ((3 ∷ []) ∷ []) refl refl (omega arith))))
      (drain_down refl (drains (1 ∷ 2 ∷ []) [] refl))

copied_in_order_example :
    ((more : List ℕ) × (flat sample_pipe.source ≡ (1 ∷ 2 ∷ []) ++ more))
    × ((more : List ℕ) × (flat sample_pipe.source ≡ [] ++ more))
copied_in_order_example =
    copied_in_order {s = sample_proxy} {t = sample_later}
      (record { no_chunks = refl; no_bytes = refl }) (record { no_chunks = refl; no_bytes = refl })
      sample-Reach

all_lost_example :
    (t : Proxy) × Reach sample_proxy t
    × (t.down.source ≡ [])
    × (t.returned ≡ true)
    × ((u : Proxy) → Reach t u → u.down.written ≡ [])
all_lost_example = all_lost sample_proxy refl refl refl refl (omega arith)
