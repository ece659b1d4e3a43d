-- ===== src/VirtualConn/Tests.antt =====
-- A run of a virtual connection.
use df.Prelude.{ℕ, arith, List, [], ◌∷◌, replicate, Option, none, some, false}
use df.VirtualConn.{VirtualConn, read}
use df.VirtualConn.Stream.{DidRead, read_conserves}

abbrev sample : VirtualConn
sample = record { closed = false; buf_read = record { bytes = replicate 2 0; len = 0 } }

abbrev sample_channel : List (Option (List ℕ))
sample_channel = some (1 ∷ 2 ∷ 3 ∷ 4 ∷ 5 ∷ []) ∷ some (6 ∷ []) ∷ none ∷ []

read_conserves_example :
    DidRead sample 2 sample_channel
      (read sample 2 sample_channel).0
      (read sample 2 sample_channel).1
      (read sample 2 sample_channel).2
read_conserves_example = read_conserves sample 2 sample_channel (omega arith)
