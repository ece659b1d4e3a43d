-- ===== src/Ws/Tests.antt =====
-- A run of the framer ws, with a block function that returns the key's front.
use df.Prelude.{
  ℕ, ◌≡◌, refl, arith, true, false, List, [], ◌∷◌, ◌++◌, length, take, drop, replicate,
}
use df.Io.{ok, err, buffer_write, mask_error}
use df.F1.Cfb.{IsBlockCipher}
use df.ReadBuf.Queue
use df.Ws.{Ws, read, write}
use df.Ws.Exchange.{exchange}

abbrev sample_key : List ℕ
sample_key = 1 ∷ 2 ∷ 3 ∷ 4 ∷ 5 ∷ 6 ∷ 7 ∷ 8 ∷ 9 ∷ 10 ∷ 11 ∷ 12 ∷ 13 ∷ 14 ∷ 15 ∷ 16 ∷ []

abbrev sample_aes : List ℕ → List ℕ → List ℕ
sample_aes key reg = sample_key

sample-IsBlockCipher : IsBlockCipher sample_aes
sample-IsBlockCipher = record { sized = λ key reg. refl; bytes = λ key reg. ground arith }

abbrev sample_iv : List ℕ
sample_iv = replicate 16 200

abbrev sample_mask : List ℕ
sample_mask = 90 ∷ 80 ∷ 70 ∷ 60 ∷ []

abbrev sample_dat : List ℕ
sample_dat = 65 ∷ 66 ∷ 67 ∷ []

abbrev sample_rest : List ℕ
sample_rest = 130 ∷ []

abbrev client : Ws
client = record {
  psk = sample_key;
  mask = true;
  buf_read = record { bytes = replicate 8 0; len = 0 };
}

abbrev server : Ws
server = record client { mask = false }

exchange_example :
    (sent : List ℕ) × (g' : Ws) × (write sample_aes
        (ok sample_iv)
        sample_mask
        buffer_write
        client
        sample_dat
        []
      ≡ (ok (length sent), sent))
    × (read sample_aes server 2 (sent ++ sample_rest) ≡ (ok (take 2 sample_dat), g', sample_rest))
    × (Queue.pending g'.buf_read ≡ drop 2 sample_dat)
    × Queue.IsValid g'.buf_read
    × ((read sample_aes client 2 (sent ++ sample_rest)).0 ≡ err mask_error)
exchange_example =
    exchange sample_aes sample_iv sample_mask sample_dat sample_rest client server client 2
      sample-IsBlockCipher refl refl (ground arith) (record { size = refl; bytes = ground arith })
      (ground arith) (omega arith) refl refl refl (omega arith) refl refl
