-- ===== src/F1/Tests.antt =====
-- Runs of the framer f1, with a block function that returns the key's front.
use df.Prelude.{
  ℕ, zero, suc, ◌+◌, ◌≤◌, ◌≡◌, refl, arith, List, [], ◌∷◌, ◌++◌, length, replicate, All,
  length-replicate,
}
use df.Bytes.{IsByte}
use df.Io.{ok}
use df.F1.{F1, Random}
use df.F1.Cfb.{IsBlockCipher}
use df.F1.Frame.{IsRandom}
use df.F1.Stream.{Sent, IsSent, plain}
use df.F1.Transfer.{write_all, read_all, read_all-write_all}

abbrev pub sample_key : List ℕ
sample_key = 1 ∷ 2 ∷ 3 ∷ 4 ∷ 5 ∷ 6 ∷ 7 ∷ 8 ∷ 9 ∷ 10 ∷ 11 ∷ 12 ∷ 13 ∷ 14 ∷ 15 ∷ 16 ∷ []

abbrev sample_chunk : List ℕ
sample_chunk = 65 ∷ 66 ∷ 67 ∷ []

abbrev pub sample_aes : List ℕ → List ℕ → List ℕ
sample_aes key reg = sample_key

pub sample-IsBlockCipher : IsBlockCipher sample_aes
sample-IsBlockCipher = record { sized = λ key reg. refl; bytes = λ key reg. ground arith }

abbrev pub sample_iv : List ℕ
sample_iv = replicate 16 200

abbrev pub sample_random : Random
sample_random = record { size_byte = 3; pad = λ n. replicate n 9; iv = ok sample_iv }

nines_IsByte : (n : ℕ) → All IsByte (replicate n 9)
nines_IsByte zero = tt
nines_IsByte (suc n) = (omega arith, nines_IsByte n)

pub sample-IsRandom : IsRandom sample_random sample_iv
sample-IsRandom = record {
  size_ok = omega arith;
  iv_len = refl;
  pad_len = λ n. length-replicate {A = ℕ} n 9;
  pad_ok = nines_IsByte;
  iv_ok = refl;
}

abbrev pub sample_f1 : F1
sample_f1 = record { psk = sample_key; buf_read = record { bytes = replicate 32 0; len = 0 } }

abbrev pub sample_sent : List Sent
sample_sent = record { random = sample_random; iv = sample_iv; chunk = sample_chunk } ∷ []

abbrev sample_psk : List ℕ
sample_psk = 1 ∷ 2 ∷ []

abbrev sample_sizes : List ℕ
sample_sizes = 2 ∷ 2 ∷ 1 ∷ 1 ∷ []

pub sample-IsSent : IsSent (record { random = sample_random; iv = sample_iv; chunk = sample_chunk })
sample-IsSent = record { drawn = sample-IsRandom; bytes = ground arith; fits = omega arith }

read_all-write_all_example :
    let arrived =
      (read_all sample_aes sample_f1 sample_sizes
        (write_all sample_aes sample_f1 sample_sent []).1).0 in
    ((more : List ℕ) × (arrived ++ more ≡ plain sample_sent))
    × (All (λ n. 1 ≤ n) sample_sizes
        → length (plain sample_sent) + length sample_sent ≤ length sample_sizes
        → arrived ≡ plain sample_sent)
read_all-write_all_example =
    read_all-write_all sample_aes sample-IsBlockCipher sample_f1 sample_f1 sample_sent sample_sizes
      refl refl refl (sample-IsSent, tt)
