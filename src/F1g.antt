-- ===== src/F1g.antt =====
-- transport/framer/f1g/f1g.go: the framer f1 with a key that the server gives the client first.
-- The handshakes of the two roles are two functions. The connection below is always an f1.
pub mod Handshake
mod Tests
use df.Prelude.{
  ℕ, zero, suc, ◌+◌, ◌-◌, ◌*◌, Bool, true, false, List, [], ◌∷◌, ◌++◌, length, drop, copy_at, leb,
  ltb, if◌then◌else◌, Option, none, some,
}
use df.Io.{Result, ok, err, panic, Io, Error, eof, unexpected_eof}
use df.F1.{F1, Random, key_size, set_psk}
use df.F1

pub record F1g : Type 0 where
  pub tx : F1
  pub eof : Bool

-- The error of `io.ReadFull`, where it already has these bytes.
abbrev pub cut_short : List ℕ → Error → Error
cut_short got eof = if ltb 0 (length got) then unexpected_eof else eof
cut_short got unexpected_eof = unexpected_eof
cut_short got e = e

abbrev pub and_more :
    Result (List ℕ) × F1 × List ℕ
    → List ℕ
    → (F1 → List ℕ → List ℕ → Option (Result (List ℕ) × F1 × List ℕ))
    → Option (Result (List ℕ) × F1 × List ℕ)
and_more (ok chunk, f, s) got k = k f (got ++ chunk) s
and_more (err e, f, s) got k = some (err (cut_short got e), f, s)
and_more (panic, f, s) got k = some (panic, f, s)

abbrev pub keyed : Result ℕ × List ℕ → F1 → List ℕ → Result F1g × List ℕ
keyed (ok size, out) f key = (ok (record { tx = set_psk f key; eof = false }), out)
keyed (err e, out) f key = (ok (record { tx = f; eof = true }), out)
keyed (panic, out) f key = (panic, out)

abbrev pub received : Result (List ℕ) × F1 × List ℕ → Result F1g × List ℕ
received (ok chunk, f, s) = (ok (record { tx = set_psk f (drop key_size chunk); eof = false }), s)
received (err e, f, s) = (ok (record { tx = f; eof = true }), s)
received (panic, f, s) = (panic, s)

module _ (aes : List ℕ → List ℕ → List ℕ) where
  -- `io.ReadFull(tx, chunk)` for `want` bytes, by the reads left; `none` where they do not do.
  unfoldable pub read_full_from :
      ℕ → F1 → ℕ → List ℕ → List ℕ → Option (Result (List ℕ) × F1 × List ℕ)
  read_full_from zero f want got s = none
  read_full_from (suc fuel) f want got s =
      if leb want (length got)
      then some (ok got, f, s)
      else and_more (F1.read aes f (want - length got) s) got
          (λ f' got' s'. read_full_from fuel f' want got' s')

  -- `handshake` of the server, for a new key and random bytes for the chunk.
  unfoldable pub handshake_server :
      Random → (List ℕ → Io ℕ) → F1 → List ℕ → List ℕ → List ℕ → Result F1g × List ℕ
  handshake_server random w f key nonce out =
      keyed (F1.write aes random w f (copy_at key_size nonce key) out) f key

  abbrev pub or_waiting : Option (Result (List ℕ) × F1 × List ℕ) → Option (Result F1g × List ℕ)
  or_waiting none = none
  or_waiting (some r) = some (received r)

  -- `handshake` of the client.
  unfoldable pub handshake_client : ℕ → F1 → List ℕ → Option (Result F1g × List ℕ)
  unfolding read_full_from
  handshake_client fuel f s = or_waiting (read_full_from fuel f (key_size * 2) [] s)

  unfoldable pub read : F1g → ℕ → List ℕ → Result (List ℕ) × F1g × List ℕ
  read f n s = if f.eof then (err eof, f, s) else (
    (F1.read aes f.tx n s).0,
    record f { tx = (F1.read aes f.tx n s).1 },
    (F1.read aes f.tx n s).2,
  )

  unfoldable pub write : Random → (List ℕ → Io ℕ) → F1g → List ℕ → Io ℕ
  write random w f dat out = if f.eof then (err eof, out) else F1.write aes random w f.tx dat out
