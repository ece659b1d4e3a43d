-- ===== src/F1/Transfer.antt =====
-- Chunks that one framer writes, read by another in buffers of any sizes.
use df.Prelude.{
  ℕ, ◌+◌, ◌≤◌, ◌<◌, ◌≡◌, ◌⊎◌, inl, inr, refl, sym, ap, ◌∙◌, arith, List, [], ◌∷◌, ◌++◌, length, All,
  append_assoc, append-nil,
}
use native.Mathlib.Decide.{dec_lt}
use df.Io.{Result, ok, err, panic, Io, ◌>>◌, pure, buffer_write}
use df.ReadBuf.Queue
use df.F1.{new_cipher, F1, read, write}
use df.F1.Cfb.{IsBlockCipher}
use df.F1.Frame.{frame, write_sends_frame}
use df.F1.Stream.{Sent, IsSent, plain, frames, remaining, Served, read_serves, read_end}

module _ (aes : List ℕ → List ℕ → List ℕ) where
  -- One `Write` after the other.
  unfoldable pub write_all : F1 → List Sent → Io ℕ
  write_all f [] = pure 0
  write_all f (d ∷ ds) = do write aes d.random buffer_write f d.chunk; write_all f ds

abbrev pub more_of :
    Result (List ℕ) × F1 × List ℕ → (F1 → List ℕ → List ℕ × F1 × List ℕ) → List ℕ × F1 × List ℕ
more_of (ok out, f, s) k = (out ++ (k f s).0, (k f s).1, (k f s).2)
more_of (err e, f, s) k = ([], f, s)
more_of (panic, f, s) k = ([], f, s)

module _ (aes : List ℕ → List ℕ → List ℕ) where
  -- One `Read` after the other, into buffers of these sizes, up to the first error: the bytes that
  -- have arrived.
  unfoldable pub read_all : F1 → List ℕ → List ℕ → List ℕ × F1 × List ℕ
  read_all f [] s = ([], f, s)
  read_all f (n ∷ ns) s = more_of (read aes f n s) (λ f' s'. read_all f' ns s')

write_all-frames :
    (aes : List ℕ → List ℕ → List ℕ) (c : IsBlockCipher aes) (f : F1) (ds : List Sent) (s : List ℕ)
    → new_cipher aes f.psk ≡ ok (aes f.psk)
    → All IsSent ds
    → (write_all aes f ds s).1 ≡ s ++ frames aes f.psk ds
unfolding write_all buffer_write
write_all-frames aes c f [] s good h = sym (append-nil s)
write_all-frames aes c f (d ∷ ds) s good (h, hs) =
    let sent = frame aes f.psk d.random d.iv d.chunk in
    rw (write_sends_frame aes c f.psk good d.random d.iv d.chunk buffer_write f s refl h.drawn)
      (write_all-frames aes c f ds (s ++ sent) good hs ∙ append_assoc s sent (frames aes f.psk ds))

eq_nil {ℓ} : {A : Type ℓ} (xs : List A) → length xs ≤ 0 → xs ≡ []
eq_nil [] h = refl
eq_nil (x ∷ xs) h = absurd (omega arith)

-- Something is left to read, or nothing at all.
left_cases :
    (f : F1) (ds : List Sent)
    → (0 < f.buf_read.len + length ds) ⊎ ((f.buf_read.len ≡ 0) × (ds ≡ []))
left_cases f ds = elim (dec_lt 0 (f.buf_read.len + length ds)) [
  | yes some_left ↦ inl some_left
  | no none_left ↦ inr (omega arith, eq_nil ds (omega arith))
]

module _ (aes : List ℕ → List ℕ → List ℕ) (c : IsBlockCipher aes) where
  -- What has arrived is a prefix of what remained, and all of it once there were enough reads.
  Arrives : F1 → List ℕ → List Sent → Type 0
  Arrives f ns ds =
      ((more : List ℕ) × ((read_all aes f ns (frames aes f.psk ds)).0 ++ more ≡ remaining f ds))
      × (All (λ n. 1 ≤ n) ns
          → length (remaining f ds) + length ds ≤ length ns
          → (read_all aes f ns (frames aes f.psk ds)).0 ≡ remaining f ds)

  Arrives-end : (f : F1) (n : ℕ) (ns : List ℕ) → f.buf_read.len ≡ 0 → Arrives f (n ∷ ns) []
  unfolding Arrives read_all
  Arrives-end f n ns e =
      let nothing : [] ≡ remaining f [] = rw e in
      rw (read_end aes f n e) (([], nothing), λ _ _. nothing)

  Arrives-step :
      (f : F1) (n : ℕ) (ns : List ℕ) (ds : List Sent) (σ : Served aes c f n ds)
      → Arrives σ.after_f ns σ.after_ds
      → Arrives f (n ∷ ns) ds
  unfolding Arrives read_all
  Arrives-step f n ns ds σ ((more, before), all) = rw σ.runs (
    (more, append_assoc σ.out _ more ∙ ap (λ t. σ.out ++ t) before ∙ σ.split),
    λ sizes enough. ap (λ t. σ.out ++ t) (all sizes.1 (omega (arith, σ.less sizes.0))) ∙ σ.split,
  )

  serves_everything :
      (ns : List ℕ) (f : F1) (ds : List Sent)
      → new_cipher aes f.psk ≡ ok (aes f.psk)
      → Queue.IsValid f.buf_read
      → All IsSent ds
      → Arrives f ns ds
  serves_everything [] f ds good v hs =
      unfold Arrives read_all in
      ((remaining f ds, refl), λ _ h. sym (eq_nil (remaining f ds) (omega arith)))
  serves_everything (n ∷ ns) f ds good v hs = elim (left_cases f ds) [
    | inl some_left ↦
        let σ = read_serves aes c f n ds good v hs some_left in
        Arrives-step f n ns ds σ
          (serves_everything ns σ.after_f σ.after_ds (rw σ.same_psk good) σ.valid σ.sent)
    | inr (none_left, no_frames) ↦ rw no_frames (Arrives-end f n ns none_left)
  ]

  -- The bytes of the chunks that one framer writes to a connection arrive at a fresh framer with the
  -- same key in order: after any reads, in buffers of any sizes, what has arrived is a prefix of
  -- them, and after as many reads as there are bytes and chunks, each with room for a byte, it is all
  -- of them. The key has 16, 24 or 32 bytes, each chunk's frame has a size of 32 bits, and the cipher
  -- and the random bytes are of the sizes that their libraries promise.
  pub read_all-write_all :
      (sender receiver : F1) (ds : List Sent) (ns : List ℕ)
      → new_cipher aes receiver.psk ≡ ok (aes receiver.psk)
      → sender.psk ≡ receiver.psk
      → receiver.buf_read.len ≡ 0
      → All IsSent ds
      → let arrived = (read_all aes receiver ns (write_all aes sender ds []).1).0 in
        ((more : List ℕ) × (arrived ++ more ≡ plain ds))
        × (All (λ n. 1 ≤ n) ns → length (plain ds) + length ds ≤ length ns → arrived ≡ plain ds)
  read_all-write_all sender receiver ds ns good same fresh hs =
      let start : remaining receiver ds ≡ plain ds = rw fresh in
      let wire : (write_all aes sender ds []).1 ≡ frames aes receiver.psk ds =
        write_all-frames aes c sender ds [] (rw same good) hs ∙ ap (λ k. frames aes k ds) same in
      let arrives = serves_everything ns receiver ds good (omega arith) hs in
      rw (wire, ← start) (unfold Arrives in arrives)
