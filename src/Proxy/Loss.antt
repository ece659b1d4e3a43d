-- ===== src/Proxy/Loss.antt =====
-- What was read before the end of the stream can be lost.
use df.Prelude.{
  ℕ, suc, ◌+◌, ◌≤◌, ◌≡◌, refl, ap, ◌∙◌, arith, true, false, List, [], ◌∷◌, ◌++◌, length,
  length-append,
}
use df.Proxy.{
  Pipe, Proxy, fills, Step, fill_down, fill_up, end_down, end_up, drain_down, drain_up, fail_up,
  fail_down, takes_error, stops_up, Reach, here, next,
}

Reach-Reach : {s t u : Proxy} → Reach s t → Reach t u → Reach s u
Reach-Reach r here = r
Reach-Reach r (next q step) = next (Reach-Reach r q) step

-- Nothing is written to the connection once `Proxy` has returned.
Step-after :
    {s t : Proxy}
    → Step s t
    → s.returned ≡ true
    → (t.returned ≡ true) × (t.down.written ≡ s.down.written)
Step-after (fill_down (fills chunk rest r e room)) h = (h, refl)
Step-after (fill_up f) h = (h, refl)
Step-after (end_down r) h = (h, refl)
Step-after (end_up r) h = (h, refl)
Step-after (drain_down r d) h = cc
Step-after (drain_up w d) h = (h, refl)
Step-after (fail_up n chunk rest w e) h = (h, refl)
Step-after (fail_down n chunk rest r e) h = cc
Step-after (takes_error r e) h = (refl, refl)
Step-after (stops_up r w) h = (h, refl)

Reach-after :
    {s t : Proxy}
    → Reach s t
    → s.returned ≡ true
    → (t.returned ≡ true) × (t.down.written ≡ s.down.written)
Reach-after here h = (h, refl)
Reach-after (next r step) h =
    let (h', same) = Reach-after r h in let (h'', same') = Step-after step h' in (h'', same' ∙ same)

-- The reader fills the channel with all that the source gives.
filled :
    (s : Proxy) (source : List (List ℕ))
    → s.down.source ≡ source
    → s.down.reading ≡ true
    → length s.down.channel + length source ≤ 8
    → (t : Proxy) × Reach s t
      × (t.down.source ≡ [])
      × (t.down.reading ≡ true)
      × (t.down.written ≡ s.down.written)
      × (t.returned ≡ s.returned)
filled s [] e r room = (s, here, e, r, refl, refl)
filled s (chunk ∷ source) e r room =
    let p : Pipe = record s.down { source = source; channel = s.down.channel ++ chunk ∷ [] } in
    let (t, reach, a, b, c, d) =
      filled (record s { down = p }) source refl r
        (omega (arith, length-append s.down.channel (chunk ∷ []))) in
    (
      t,
      Reach-Reach (next here (fill_down (fills chunk source r e (omega arith)))) reach,
      a,
      b,
      c,
      d,
    )

-- Where a server sends at most eight chunks and ends the stream, there is a schedule in which all of
-- them are read, `Proxy` returns, and the client is sent none of them, then or later.
pub all_lost :
    (s : Proxy)
    → s.down.reading ≡ true
    → s.down.channel ≡ []
    → s.down.written ≡ []
    → s.returned ≡ false
    → length s.down.source ≤ 8
    → (t : Proxy) × Reach s t
      × (t.down.source ≡ [])
      × (t.returned ≡ true)
      × ((u : Proxy) → Reach t u → u.down.written ≡ [])
all_lost s reading empty fresh not_yet few =
    let (m, reach, drained, reading', same, running) =
      filled s s.down.source refl reading (omega (arith, ap length empty)) in
    let ended : Proxy = record m {
      down = record m.down { reading = false };
      errors = suc m.errors;
    } in
    let t : Proxy = record ended { errors = m.errors; returned = true } in
    (
      t,
      next (next reach (end_down reading')) (takes_error (running ∙ not_yet) refl),
      drained,
      refl,
      λ u r. (Reach-after r refl).1 ∙ same ∙ fresh,
    )
