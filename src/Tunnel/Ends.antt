-- ===== src/Tunnel/Ends.antt =====
-- The loop of a session ends.
use df.Prelude.{ℕ, zero, suc, ◌<◌, ◌≡◌, ◌≢◌, refl, arith, List, length}
use df.Io.{Result, ok, err, panic, Io, Error}
use df.Message.{Message, request_dns, result_dns, request_dial, connection_state, conn_data, ping}
use df.Codec.{Json}
use df.Codec
use df.Codec.Sound.{read_takes}
use df.Tunnel.Session.{Session, out_of_fuel, answered, handle_one, handle_dns, handle}

-- Going on behind what a read leaves, a loop ends.
abbrev Ends : Result Message × List ℕ → (List ℕ → List ℕ → Session) → Type 0
Ends r k = (m : Message) (t out : List ℕ) → r ≡ (ok m, t) → (k t out).0 ≢ out_of_fuel

answered_ends :
    (r : Result ℕ × List ℕ) (s : List ℕ) (k : List ℕ → List ℕ → Session)
    → ((out : List ℕ) → (k s out).0 ≢ out_of_fuel)
    → (answered r s k).0 ≢ out_of_fuel
answered_ends (ok n, out) s k h = h out
answered_ends (err e, out) s k h = λ p. cc
answered_ends (panic, out) s k h = λ p. cc

module _ (json : Json) (noise : List ℕ) (text : Error → List ℕ)
    (net_lookup : List ℕ → Result (List (List ℕ))) (w : List ℕ → Io ℕ) where
  handle_one-Ends :
      (r : Result Message × List ℕ) (out : List ℕ) (k : List ℕ → List ℕ → Session)
      → Ends r k
      → (handle_one json noise text net_lookup w r out k).0 ≢ out_of_fuel
  unfolding handle_one
  handle_one-Ends (err e, s) out k h = λ p. cc
  handle_one-Ends (panic, s) out k h = λ p. cc
  handle_one-Ends (ok (request_dns m1), s) out k h =
      answered_ends (handle_dns json noise text net_lookup w m1 out) s k
        (λ o. h (request_dns m1) s o refl)
  handle_one-Ends (ok (request_dial m1), s) out k h = λ p. cc
  handle_one-Ends (ok (result_dns m1), s) out k h = h (result_dns m1) s out refl
  handle_one-Ends (ok (connection_state m1), s) out k h = h (connection_state m1) s out refl
  handle_one-Ends (ok (conn_data m1), s) out k h = h (conn_data m1) s out refl
  handle_one-Ends (ok (ping m1), s) out k h = h (ping m1) s out refl

  -- A session's loop ends on every finite stream, whatever its bytes are, how its replies are written
  -- and what names resolve to: with a failed read or write, a panic, or a dial request. A round more
  -- than there are bytes is enough.
  pub handle_ends :
      (fuel : ℕ) (s out : List ℕ)
      → length s < fuel
      → (handle json noise text net_lookup w fuel s out).0 ≢ out_of_fuel
  unfolding handle
  handle_ends zero s out h = absurd (omega arith)
  handle_ends (suc fuel) s out h =
      handle_one-Ends (Codec.read json s) out (handle json noise text net_lookup w fuel)
        (λ m t o e. handle_ends fuel t o (omega (arith, (read_takes json s e).3)))
