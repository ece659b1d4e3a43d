-- ===== src/F1g/Handshake.antt =====
-- Both sides of the handshake go on with the server's key.
use df.Prelude.{
  ℕ, suc, ◌+◌, ◌≤◌, ◌≡◌, refl, ap, ◌∙◌, arith, false, List, [], ◌++◌, length, take, drop, copy_at,
  length-copy_at, le→leb, le→ltb, All, some, copy_at-eq-append, drop-append, append-nil,
  drop_of_length-le, length-take, length-drop,
}
use df.Bytes.{IsByte}
use df.Io.{ok, buffer_write}
use df.F1.{F1, Random, key_size, new_cipher, set_psk, deliver}
use df.F1
use df.F1.Cfb.{IsBlockCipher}
use df.F1.Frame.{IsRandom, Fits, frame, write_sends_frame, read_chunk-frame}
use df.F1.Stream.{Sent, IsSent, plain}
use df.F1.Transfer.{write_all, read_all, read_all-write_all}
use df.F1g.{handshake_server, handshake_client, read_full_from}

key_in_chunk :
    (nonce key : List ℕ)
    → length nonce ≡ 32
    → length key ≡ 16
    → drop key_size (copy_at key_size nonce key) ≡ key
key_in_chunk nonce key n k =
    let tail : drop (length key) (drop 16 nonce) ≡ [] =
      drop_of_length-le (length key) (drop 16 nonce) (omega (arith, length-drop 16 nonce)) in
    ap (drop 16) (copy_at-eq-append 16 nonce key (omega arith))
    ∙ drop-append 16 (take 16 nonce) (key ++ drop (length key) (drop 16 nonce))
        (omega (arith, length-take 16 nonce))
    ∙ ap (λ t. key ++ t) tail
    ∙ append-nil key

module _ (aes : List ℕ → List ℕ → List ℕ) (c : IsBlockCipher aes) where
  read_full_from-frame :
      (f : F1) (r : Random) (iv chunk rest : List ℕ) (fuel : ℕ)
      → new_cipher aes f.psk ≡ ok (aes f.psk)
      → f.buf_read.len ≡ 0
      → length chunk ≡ 32
      → IsRandom r iv
      → All IsByte chunk
      → Fits r chunk
      → read_full_from aes (suc (suc fuel)) f 32 [] (frame aes f.psk r iv chunk ++ rest)
        ≡ some (ok chunk, f, rest)
  unfolding read_full_from F1.read deliver
  read_full_from-frame f r iv chunk rest fuel good fresh size h hb fits =
      rw (fresh, read_chunk-frame aes c f.psk good r iv chunk rest h hb fits)
        (rw (le→ltb 32 (length chunk) (omega arith))
          (rw (le→leb 32 (length chunk) (omega arith)) refl))

  -- The server's handshake sends the client's all that it needs: both sides then have the framer f1 with
  -- the server's new key and an empty buffer, the client has read what the server sent and no more, and
  -- what either side writes arrives at the other in order, all of it in as many reads into non-empty
  -- buffers as there are bytes and chunks. The client's handshake needs two tests of its loop.
  pub handshake_agrees :
      (server client : F1) (r : Random) (iv nonce key rest : List ℕ) (fuel : ℕ) (ds : List Sent)
      (ns : List ℕ)
      → new_cipher aes client.psk ≡ ok (aes client.psk)
      → server.psk ≡ client.psk
      → server.buf_read.len ≡ 0
      → client.buf_read.len ≡ 0
      → length nonce ≡ 32
      → length key ≡ 16
      → IsRandom r iv
      → All IsByte (copy_at key_size nonce key)
      → Fits r (copy_at key_size nonce key)
      → All IsSent ds
      → All (λ n. 1 ≤ n) ns
      → length (plain ds) + length ds ≤ length ns
      → (x y : F1) × (sent : List ℕ) × (handshake_server aes r buffer_write server key nonce []
          ≡ (ok (record { tx = x; eof = false }), sent))
        × (handshake_client aes (suc (suc fuel)) client (sent ++ rest)
            ≡ some (ok (record { tx = y; eof = false }), rest))
        × (x.psk ≡ key)
        × (y.psk ≡ key)
        × ((read_all aes y ns (write_all aes x ds []).1).0 ≡ plain ds)
        × ((read_all aes x ns (write_all aes y ds []).1).0 ≡ plain ds)
  unfolding handshake_server handshake_client buffer_write set_psk
  handshake_agrees server client r iv nonce key rest fuel ds ns good same fresh fresh' n k h hb fits
        sent sizes enough =
      let chunk = copy_at key_size nonce key in
      let bytes = frame aes client.psk r iv chunk in
      let taken =
        read_full_from-frame client r iv chunk rest fuel good fresh'
          (length-copy_at key_size nonce key ∙ n) h hb fits in
      let x : F1 = record server { psk = key } in
      let y : F1 = record client { psk = key } in
      let takes : new_cipher aes key ≡ ok (aes key) = rw k refl in
      let (_, down) = read_all-write_all aes c x y ds ns takes refl fresh' sent in
      let (_, up) = read_all-write_all aes c y x ds ns takes refl fresh sent in
      (
        x,
        y,
        bytes,
        rw (write_sends_frame aes c client.psk good r iv chunk buffer_write server [] same h) refl,
        rw taken (rw (key_in_chunk nonce key n k) refl),
        refl,
        refl,
        down sizes enough,
        up sizes enough,
      )
