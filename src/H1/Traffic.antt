-- ===== src/H1/Traffic.antt =====
-- The framers f1 that both sides make of their settings, one writing what the other reads.
use df.Prelude.{ℕ, ◌+◌, ◌≤◌, ◌≡◌, refl, List, [], length, All}
use df.Io.{ok}
use df.F1.{F1, new_cipher}
use df.F1.Cfb.{IsBlockCipher}
use df.F1.Stream.{Sent, IsSent, plain}
use df.F1.Transfer.{write_all, read_all, read_all-write_all}
use df.Conf.{Values, Strconv, get, framer_psk}
use df.Framer.{Text, framer_key, f1_framer, empty_buf}
use df.H1.{opened, auth_bytes, finish_connect}
use df.H1.Steps.{IsCoding}
use df.H1.Agree.{Attempt, IsAttempt, answer, agree}

f1_framer_lem :
    (text : Text) (conv : Strconv) (cfg : Values) (key : List ℕ)
    → framer_key text conv cfg ≡ ok key
    → f1_framer text conv cfg ≡ ok (record { psk = key; buf_read = empty_buf })
unfolding f1_framer
f1_framer_lem text conv cfg key e = rw e

module _ (aes : List ℕ → List ℕ → List ℕ) (text : Text) (conv : Strconv) (cfg : Values)
    (pskb : List ℕ) where
  -- Once a client with the server's pre-shared key and a near clock is let in, both sides have a framer
  -- f1: what one of them writes, the other reads in the same order, and all of it, given as many reads
  -- into non-empty buffers as there are bytes and chunks.
  pub session_delivers :
      (cfg_client : Values) (a : Attempt) (ds : List Sent) (ns : List ℕ)
      → IsBlockCipher aes
      → IsCoding text conv
      → new_cipher aes pskb ≡ ok (aes pskb)
      → text.decode (get cfg framer_psk) ≡ ok pskb
      → IsAttempt a
      → a.ts ≤ a.now + 120
      → a.now ≤ a.ts + 120
      → All IsSent ds
      → All (λ n. 1 ≤ n) ns
      → length (plain ds) + length ds ≤ length ns
      → (token : List ℕ) × (server client : Values) × (x y : F1) × (answer aes text conv cfg pskb a
          ≡ opened token server)
        × (finish_connect aes text conv cfg_client pskb (auth_bytes a.ts a.random) a.ts token
            ≡ ok client)
        × (f1_framer text conv server ≡ ok x)
        × (f1_framer text conv client ≡ ok y)
        × ((read_all aes x ns (write_all aes y ds []).1).0 ≡ plain ds)
        × ((read_all aes y ns (write_all aes x ds []).1).0 ≡ plain ds)
  session_delivers cfg_client a ds ns c coding good psk h early late sent sizes enough =
      let (token, server, client, key, let_in, taken, theirs, ours, takes, _, _, _, _, _, _, _) =
        agree aes text conv cfg pskb cfg_client a c coding good psk h early late in
      let f : F1 = record { psk = key; buf_read = empty_buf } in
      let (_, all) = read_all-write_all aes c f f ds ns takes refl refl sent in
      let arrives = all sizes enough in
      (
        token,
        server,
        client,
        f,
        f,
        let_in,
        taken,
        f1_framer_lem text conv server key theirs,
        f1_framer_lem text conv client key ours,
        arrives,
        arrives,
      )
