-- ===== src/Framer.antt =====
-- The functions `Framer` of transport/framer/f1/f1.go and transport/framer/ws/ws.go, which have the
-- same text but for the mask: a framer from settings.
-- `encoding/base64` and `strings.EqualFold` are parameters, as `strconv` is.
pub mod Config
use df.Prelude.{ℕ, zero, Bool, List, [], ◌∷◌, replicate}
use df.Io.{Result, ok, err, panic, and_then}
use df.ReadBuf.{ReadBuf}
use df.Conf.{
  Values, Strconv, get, or_zero, framer_psk, framer_timestamp, framer_role, default_buffer_size,
  codes,
}
use df.F1.{F1, derive_key}
use df.Ws.{Ws}

pub record Text : Type 0 where
  pub decode : List ℕ → Result (List ℕ)
  pub encode : List ℕ → List ℕ
  pub equal_fold : List ℕ → List ℕ → Bool

-- `panic(err)` where the text is not in base64.
abbrev pub decoded : Result (List ℕ) → Result (List ℕ)
decoded (ok pskb) = ok pskb
decoded (err e) = panic
decoded panic = panic

-- The key of the framer; the timestamp is 0 where it is not a number.
unfoldable pub framer_key : Text → Strconv → Values → Result (List ℕ)
framer_key text conv cfg =
    and_then (decoded (text.decode (get cfg framer_psk)))
      λ pskb. derive_key pskb (or_zero (conv.parse_int (get cfg framer_timestamp)))

abbrev pub empty_buf : ReadBuf
empty_buf = record { bytes = replicate default_buffer_size 0; len = 0 }

unfoldable pub f1_framer : Text → Strconv → Values → Result F1
unfolding framer_key
f1_framer text conv cfg =
    and_then (framer_key text conv cfg) λ psk. ok (record { psk = psk; buf_read = empty_buf })

unfoldable pub ws_framer : Text → Strconv → Values → Result Ws
unfolding framer_key
ws_framer text conv cfg = and_then (framer_key text conv cfg) λ psk. ok (record {
  psk = psk;
  mask = text.equal_fold (get cfg framer_role) (codes "client");
  buf_read = empty_buf;
})
