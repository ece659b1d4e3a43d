-- ===== src/Http/Chunks.antt =====
-- How the bytes of a response are cut into reads does not matter.
use df.Prelude.{
  flat, ℕ, zero, suc, ◌+◌, ◌*◌, ◌≤◌, ◌≡◌, refl, sym, ap, ◌∙◌, arith, List, [], ◌∷◌, ◌++◌, length,
  length-append, append-nil, append_assoc, Option, none, some, le→ltb,
}
use df.Io.{Result, ok, err, panic, eof}
use df.Conf.{Strconv}
use df.Http.{
  Names, Response, cut_line, Lines, need_more, complete, failed, panicked, out_of_fuel, take_line,
  go_on, on_line, take_lines, after_lines, read_rest, read_response,
}
use df.Http.Partial.{cut_line-append, continued, take_lines-append}

-- What `ReadResponse` returns when the connection ends there.
abbrev pub finished : Lines → Result Response
finished (need_more buf rs i) = err eof
finished (complete rs buf) = ok rs
finished (failed e) = err e
finished panicked = panic
finished out_of_fuel = panic

module _ (conv : Strconv) (names : Names) where
  -- The bytes that wait for more have no line, and are some of those that were there.
  Waits : List ℕ → Lines → Type 0
  Waits buf (need_more b rs i) = (cut_line b ≡ none) × (length b ≤ length buf)
  Waits buf (complete rs b) = Unit
  Waits buf (failed e) = Unit
  Waits buf panicked = Unit
  Waits buf out_of_fuel = Unit

  Waits-shorter : (buf b : List ℕ) (x : Lines) → length b ≤ length buf → Waits b x → Waits buf x
  unfolding Waits
  Waits-shorter buf b (need_more c rs i) h (e, k) = (e, omega arith)
  Waits-shorter buf b (complete rs c) h w = tt
  Waits-shorter buf b (failed e) h w = tt
  Waits-shorter buf b panicked h w = tt
  Waits-shorter buf b out_of_fuel h w = tt

  go_on-Waits :
      (buf : List ℕ) (r : Result Response) (k : Response → Lines)
      → ((rs : Response) → Waits buf (k rs))
      → Waits buf (go_on conv names r k)
  unfolding Waits
  go_on-Waits buf (ok rs) k h = h rs
  go_on-Waits buf (err e) k h = tt
  go_on-Waits buf panic k h = tt

  on_line-Waits :
      (f : ℕ) (buf : List ℕ) (rs : Response) (i : ℕ) (o : Option (List ℕ × List ℕ))
      → cut_line buf ≡ o
      → ((b : List ℕ) (rs' : Response) → Waits b (take_lines conv names f b rs' (suc i)))
      → Waits buf (on_line conv names o buf rs i (take_lines conv names f))
  unfolding Waits
  on_line-Waits f buf rs i none e h = (e, omega arith)
  on_line-Waits f buf rs i (some ([], b)) e h = tt
  on_line-Waits f buf rs i (some (x ∷ line, b)) e h =
      let (_, size) = cut_line-append buf [] e in
      go_on-Waits buf (take_line conv names i (x ∷ line) rs)
        (λ rs'. take_lines conv names f b rs' (suc i))
        (λ rs'.
          Waits-shorter buf b (take_lines conv names f b rs' (suc i)) (omega (arith, size))
            (h b rs'))

  take_lines-Waits :
      (f : ℕ) (buf : List ℕ) (rs : Response) (i : ℕ) → Waits buf (take_lines conv names f buf rs i)
  unfolding take_lines Waits
  take_lines-Waits zero buf rs i = tt
  take_lines-Waits (suc f) buf rs i =
      on_line-Waits f buf rs i (cut_line buf) refl (λ b rs'. take_lines-Waits f b rs' (suc i))

  abbrev at_once : List ℕ → Response → ℕ → Lines
  at_once buf rs i = take_lines conv names (suc (length buf)) buf rs i

  after_lines-finished :
      (buf : List ℕ) (x : Lines) (conn : List (List ℕ))
      → Waits buf x
      → length buf + length (flat conn) ≤ 1024 * 16
      → ((b : List ℕ) (rs : Response) (i : ℕ)
          → cut_line b ≡ none
          → length b + length (flat conn) ≤ 1024 * 16
          → (read_rest conv names conn b rs i).0 ≡ finished (at_once (b ++ flat conn) rs i))
      → (after_lines conv names x conn (read_rest conv names conn)).0
        ≡ finished (continued conv names x (flat conn))
  unfolding Waits
  after_lines-finished buf (need_more b rs i) conn (e, k) h ih = ih b rs i e (omega arith)
  after_lines-finished buf (complete rs b) conn w h ih = refl
  after_lines-finished buf (failed e) conn w h ih = refl
  after_lines-finished buf panicked conn w h ih = refl
  after_lines-finished buf out_of_fuel conn w h ih = refl

  pub read_rest-finished :
      (conn : List (List ℕ)) (buf : List ℕ) (rs : Response) (i : ℕ)
      → cut_line buf ≡ none
      → length buf + length (flat conn) ≤ 1024 * 16
      → (read_rest conv names conn buf rs i).0 ≡ finished (at_once (buf ++ flat conn) rs i)
  unfolding read_rest take_lines
  read_rest-finished [] buf rs i e h = rw (append-nil buf, e) refl
  read_rest-finished (chunk ∷ conn) buf rs i e h =
      let all = buf ++ chunk in
      let fits : length all + length (flat conn) ≤ 1024 * 16 =
        omega (arith, length-append buf chunk, length-append chunk (flat conn)) in
      rw
        (le→ltb (1024 * 16) (length buf + length chunk)
          (omega (arith, length-append chunk (flat conn))))
        (after_lines-finished all (at_once all rs i) conn
            (take_lines-Waits (suc (length all)) all rs i) fits (read_rest-finished conn)
          ∙ ap finished (
              sym (
                take_lines-append conv names (suc (length all)) (suc (length (all ++ flat conn)))
                  all (flat conn) rs i (omega arith) (omega arith))
              ∙ ap (λ t. at_once t rs i) (append_assoc buf chunk (flat conn))))

  -- `ReadResponse` returns the same however the bytes come: what it makes of all of them at once, as far
  -- as they fit its 16 KB.
  pub chunks_joined :
      (conn : List (List ℕ))
      → length (flat conn) ≤ 1024 * 16
      → (read_response conv names conn).0 ≡ (read_response conv names (flat conn ∷ [])).0
  unfolding read_response
  chunks_joined conn h =
      let rs : Response = record { status_code = 0; header = [] } in
      read_rest-finished conn [] rs 0 (unfold cut_line in refl) (omega arith)
      ∙ sym (
          read_rest-finished (flat conn ∷ []) [] rs 0 (unfold cut_line in refl)
            (rw (append-nil (flat conn)) (omega arith))
          ∙ ap (λ t. finished (at_once t rs 0)) (append-nil (flat conn)))
