-- ===== src/F1g/Tests.antt =====
-- A run of the handshake.
use df.Prelude.{ℕ, ◌≡◌, refl, arith, false, List, [], ◌∷◌, ◌++◌, some, replicate}
use df.Io.{ok, buffer_write}
use df.F1.{F1}
use df.F1.Stream.{plain}
use df.F1.Transfer.{write_all, read_all}
use df.F1.Tests.{
  sample_aes, sample-IsBlockCipher, sample_f1, sample_random, sample-IsRandom, sample_iv,
  sample_sent, sample-IsSent,
}
use df.F1g.{handshake_server, handshake_client}
use df.F1g.Handshake.{handshake_agrees}

handshake_agrees_example :
    (x y : F1) × (sent : List ℕ) × (handshake_server sample_aes sample_random buffer_write sample_f1
        (replicate 16 5)
        (replicate 32 1)
        []
      ≡ (ok (record { tx = x; eof = false }), sent))
    × (handshake_client sample_aes 2 sample_f1 (sent ++ 9 ∷ [])
        ≡ some (ok (record { tx = y; eof = false }), 9 ∷ []))
    × (x.psk ≡ replicate 16 5)
    × (y.psk ≡ replicate 16 5)
    × ((read_all sample_aes y (replicate 4 9) (write_all sample_aes x sample_sent []).1).0
        ≡ plain sample_sent)
    × ((read_all sample_aes x (replicate 4 9) (write_all sample_aes y sample_sent []).1).0
        ≡ plain sample_sent)
handshake_agrees_example =
    handshake_agrees sample_aes sample-IsBlockCipher sample_f1 sample_f1 sample_random sample_iv
      (replicate 32 1) (replicate 16 5) (9 ∷ []) 0 sample_sent (replicate 4 9) refl refl refl refl
      refl refl sample-IsRandom (ground arith) (omega arith) (sample-IsSent, tt) (ground arith)
      (omega arith)
