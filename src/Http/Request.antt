-- ===== src/Http/Request.antt =====
-- The reader of a request's header finds its end.
use df.Prelude.{
  ℕ, zero, suc, ◌+◌, ◌-◌, ◌*◌, ◌≤◌, ◌<◌, ◌≡◌, Bool-cases, inl, inr, refl, sym, ap, ◌∙◌, arith, List,
  [], ◌∷◌, ◌++◌, length, flat, All, append-nil, append_assoc, length-append, ltb, lt→leb, ltb→lt,
  le→ltb, ◌⊎◌, Option, none, some,
}
use df.Http.Header.{Letters, cut_blank, room, parse_header, peek_header}
use df.Http.Blank.{cut_blank-append}

-- The reader finds the end of the header, however it is cut into reads.
room-fits :
    (fuel k end : ℕ)
    → end + 1024 * 2 ≤ 1024 * 16
    → k ≤ 6
    → 6 < k + fuel
    → (k' : ℕ) × (room fuel (1024 * 4 + 1024 * 2 * k) end ≡ some (1024 * 4 + 1024 * 2 * k'))
      × (k' ≤ 6)
unfolding room
room-fits zero k end h small enough = absurd (omega arith)
room-fits (suc fuel) k end h small enough =
    elim (Bool-cases (ltb (1024 * 4 + 1024 * 2 * k - end) (1024 * 2))) [
      | inl tight ↦
          let less = ltb→lt (1024 * 4 + 1024 * 2 * k - end) (1024 * 2) tight in
          let (k', e, small') = room-fits fuel (suc k) end h (omega (arith, less)) (omega arith) in
          rw tight (
            rw (le→ltb (1024 * 16) (1024 * 4 + 1024 * 2 * k + 1024 * 2) (omega (arith, less)))
              (k', ap (λ size. room fuel size end) (omega arith) ∙ e, small'))
      | inr wide ↦ (k, rw wide refl, small)
    ]

found_cases : (o : Option (List ℕ × List ℕ)) → ((l r : List ℕ) × (o ≡ some (l, r))) ⊎ (o ≡ none)
found_cases none = inr refl
found_cases (some (l, r)) = inl (l, r, refl)

module _ (letters : Letters) where
  peek_header-now :
      (conn : List (List ℕ)) (buff : List ℕ) (size : ℕ) {l r : List ℕ}
      → cut_blank buff ≡ some (l, r)
      → peek_header letters conn buff size ≡ parse_header letters l
  unfolding peek_header
  peek_header-now [] buff size e = rw e refl
  peek_header-now (chunk ∷ conn) buff size e = rw e refl

  same_front :
      (buff more l front rest : List ℕ) {r : List ℕ}
      → cut_blank buff ≡ some (l, r)
      → cut_blank (buff ++ more) ≡ some (front, rest)
      → l ≡ front
  same_front buff more l front rest e e' = let e'' = cut_blank-append buff more e in cc

  pub peek_header-found :
      (conn : List (List ℕ)) (buff front rest : List ℕ) (k : ℕ)
      → cut_blank (buff ++ flat conn) ≡ some (front, rest)
      → All (λ chunk. 0 < length chunk) conn
      → length buff + length (flat conn) + 1024 * 2 ≤ 1024 * 16
      → k ≤ 6
      → peek_header letters conn buff (1024 * 4 + 1024 * 2 * k) ≡ parse_header letters front
  unfolding peek_header
  peek_header-found [] buff front rest k e some_bytes fits small =
      peek_header-now [] buff (1024 * 4 + 1024 * 2 * k) (ap cut_blank (sym (append-nil buff)) ∙ e)
  peek_header-found (chunk ∷ conn) buff front rest k e (some_chunk, some_bytes) fits small =
      elim (found_cases (cut_blank buff)) [
        | inl (l, r, now) ↦
            peek_header-now (chunk ∷ conn) buff (1024 * 4 + 1024 * 2 * k) now
            ∙ ap (parse_header letters) (same_front buff (flat (chunk ∷ conn)) l front rest now e)
        | inr later ↦
            let (k', made, small') =
              room-fits 8 k (length buff) (omega arith) small (omega arith) in
            rw later (
              rw made (
                rw (lt→leb 0 (length chunk) some_chunk) (
                  peek_header-found conn (buff ++ chunk) front rest k'
                    (ap cut_blank (append_assoc buff chunk (flat conn)) ∙ e) some_bytes
                    (omega (arith, length-append buff chunk, length-append chunk (flat conn)))
                    small')))
      ]
