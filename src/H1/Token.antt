-- ===== src/H1/Token.antt =====
-- The token of the response, as the client reads it.
use df.Prelude.{
  flat, ℕ, suc, ◌+◌, ◌*◌, ◌≤◌, ◌≡◌, refl, sym, ap, ◌∙◌, arith, Bool, true, false, List, [], ◌∷◌,
  ◌++◌, length, All, All-append, length-append, append_assoc, some, if◌then◌else◌, bytes_eq_refl,
  lt→ltb,
}
use df.Io.{ok}
use df.SyncMap.{load, store, load-store}
use df.Conf.{Strconv, codes, or_empty}
use df.Http.{
  Names, Response, cut_line, split_at, get_header, set_header, take_line, take_lines,
  parse_response_line, parse_header_line, read_response,
}
use df.Http.Chunks.{finished, read_rest-finished}
use df.Http.Whole.{
  lacks, with_crlf, split_at-found, IsLine, IsHeader, taken, take_lines-whole, taken-IsHeader,
}
use df.H1.Reply.{status_line, proto_line, header_lines, response_bytes}

-- What the libraries promise on the texts of the response.
pub record IsRead (conv : Strconv) (names : Names) (token : List ℕ) : Type 0 where
  pub atoi_101 : conv.atoi (codes "101") ≡ ok 101
  pub atoi_200 : conv.atoi (codes "200") ≡ ok 200
  pub trim_name : names.trim_space (codes "X-Token") ≡ codes "X-Token"
  pub trim_token : names.trim_space (32 ∷ token) ≡ token

with_crlf-append :
    (ls more : List (List ℕ)) → with_crlf (ls ++ more) ≡ with_crlf ls ++ with_crlf more
unfolding with_crlf
with_crlf-append [] more = refl
with_crlf-append (l ∷ ls) more =
    ap (λ t. l ++ (13 ∷ 10 ∷ t)) (with_crlf-append ls more)
    ∙ sym (append_assoc l (13 ∷ 10 ∷ with_crlf ls) (with_crlf more))

abbrev IsPlain : List ℕ → Type 0
IsPlain x = lacks 13 x ≡ true

lacks-append : (x y : List ℕ) → IsPlain x → IsPlain y → IsPlain (x ++ y)
lacks-append [] y h k = k
lacks-append (a ∷ x) y h k = ground (arith, h, k, lacks-append x y)

status_line-IsLine :
    (is_ws : Bool) (proto : List ℕ) → IsPlain proto → IsLine (status_line is_ws proto)
status_line-IsLine true proto h = (
  omega (arith, length-append proto (codes " 101 Switching Protocols")),
  lacks-append proto (codes " 101 Switching Protocols") h refl,
)
status_line-IsLine false proto h = (
  omega (arith, length-append proto (codes " 200 OK")),
  lacks-append proto (codes " 200 OK") h refl,
)

-- A header's line, by its name, with a text behind.
abbrev IsGood : List ℕ → Type 0
IsGood l = IsLine l × IsHeader l

proto_line-IsGood : (ws_proto : List ℕ) → IsPlain ws_proto → All IsGood (proto_line ws_proto)
proto_line-IsGood [] h = tt
proto_line-IsGood (x ∷ xs) h =
    rw (lt→ltb 0 (suc (length xs)) (omega arith)) (
      ((omega arith, h), (codes "Sec-WebSocket-Protocol", 32 ∷ x ∷ xs, unfold split_at in refl)),
      tt,
    )

header_lines-IsGood :
    (is_ws : Bool) (accept ws_proto : List ℕ)
    → IsPlain accept
    → IsPlain ws_proto
    → All IsGood (header_lines is_ws accept ws_proto)
unfolding header_lines split_at
header_lines-IsGood true accept ws_proto h k = (
  ((omega arith, refl), (codes "Connection", codes " Upgrade", refl)),
  (
    ((omega arith, refl), (codes "Upgrade", codes " websocket", refl)),
    (
      ((omega arith, h), (codes "Sec-WebSocket-Accept", 32 ∷ accept, refl)),
      All-append IsGood (proto_line ws_proto) (codes "Sec-WebSocket-Version: 7" ∷ [])
          (proto_line-IsGood ws_proto k)
          (((omega arith, refl), (codes "Sec-WebSocket-Version", codes " 7", refl)), tt),
    ),
  ),
)
header_lines-IsGood false accept ws_proto h k = (
  ((omega arith, refl), (codes "Connection", codes " close", refl)),
  (
    ((omega arith, refl), (codes "Content-Type", codes " image/png,stream=1", refl)),
    (((omega arith, refl), (codes "Content-Transfer-Encoding", codes " custom", refl)), tt),
  ),
)

All-map {ℓ κ μ} :
    {A : Type ℓ} (P : A → Type κ) (Q : A → Type μ)
    → ((x : A) → P x → Q x)
    → (xs : List A) → All P xs
    → All Q xs
All-map P Q f [] h = tt
All-map P Q f (x ∷ xs) (h, hs) = (f x h, All-map P Q f xs hs)

abbrev status_of : Bool → ℕ
status_of is_ws = if is_ws then 101 else 200

module _ (conv : Strconv) (names : Names) where
  status_line_lem :
      (is_ws : Bool) (proto token : List ℕ) (rs : Response)
      → lacks 32 proto ≡ true
      → IsRead conv names token
      → take_line conv names 0 (status_line is_ws proto) rs
        ≡ ok (record rs { status_code = status_of is_ws })
  unfolding take_line parse_response_line
  status_line_lem true proto token rs h r =
      rw (split_at-found 32 proto (codes "101 Switching Protocols") h)
        (unfold split_at in rw (r.atoi_101) refl)
  status_line_lem false proto token rs h r =
      rw (split_at-found 32 proto (codes "200 OK") h) (unfold split_at in rw (r.atoi_200) refl)

  token_line_lem :
      (token : List ℕ) (rs : Response) (i : ℕ)
      → IsRead conv names token
      → take_line conv names (suc i) (codes "X-Token: " ++ token) rs
        ≡ ok (set_header names (codes "X-Token") token rs)
  unfolding take_line parse_header_line split_at
  token_line_lem token rs i r = rw (r.trim_name, r.trim_token) refl

  -- The lines of the response, one after the other.
  lines_taken :
      (is_ws : Bool) (proto accept ws_proto token : List ℕ) (rs : Response)
      → lacks 32 proto ≡ true
      → IsPlain accept
      → IsPlain ws_proto
      → IsRead conv names token
      → (rs' : Response) × (taken conv names
            (status_line is_ws proto
              ∷ (header_lines is_ws accept ws_proto ++ (codes "X-Token: " ++ token) ∷ []))
            rs
            0
          ≡ ok rs')
        × (rs'.status_code ≡ status_of is_ws)
        × (get_header names (codes "X-Token") rs' ≡ token)
  lines_taken is_ws proto accept ws_proto token rs one_word plain plain' r =
      let heads = header_lines is_ws accept ws_proto in
      let last = codes "X-Token: " ++ token in
      let start : Response = record rs { status_code = status_of is_ws } in
      let good =
        All-map IsGood IsHeader (λ l g. g.1) heads
          (header_lines-IsGood is_ws accept ws_proto plain plain') in
      let (mid, e, same) = taken-IsHeader conv names heads (last ∷ []) start 0 good in
      let key = names.canonical (codes "X-Token") in
      let stored : load key (store key token mid.header) ≡ some token =
        load-store key key token mid.header ∙ rw (bytes_eq_refl key) refl in
      (
        set_header names (codes "X-Token") token mid,
        rw (status_line_lem is_ws proto token rs one_word r)
            (e ∙ rw (token_line_lem token mid (0 + length heads) r) refl),
        same,
        ap or_empty stored,
      )

  -- The client reads, from the response that the server writes, its status and the token in it, however
  -- the bytes are cut into reads and whatever follows them, as far as all of it fits 16 KB. The
  -- protocol's name is one word, and none of the values has a carriage return.
  pub token_arrives :
      (is_ws : Bool) (proto accept ws_proto token extra : List ℕ) (conn : List (List ℕ))
      → lacks 32 proto ≡ true
      → lacks 13 proto ≡ true
      → lacks 13 accept ≡ true
      → lacks 13 ws_proto ≡ true
      → lacks 13 token ≡ true
      → IsRead conv names token
      → flat conn ≡ response_bytes is_ws proto accept ws_proto token ++ extra
      → length (flat conn) ≤ 1024 * 16
      → (rs : Response) × ((read_response conv names conn).0 ≡ ok rs)
        × (rs.status_code ≡ (if is_ws then 101 else 200))
        × (get_header names (codes "X-Token") rs ≡ token)
  unfolding read_response response_bytes
  token_arrives is_ws proto accept ws_proto token extra conn one_word plain_proto plain plain'
        plain_token r e fits =
      let heads = header_lines is_ws accept ws_proto in
      let last = codes "X-Token: " ++ token in
      let lines = status_line is_ws proto ∷ (heads ++ last ∷ []) in
      let start : Response = record { status_code = 0; header = [] } in
      let whole : flat conn ≡ with_crlf lines ++ (13 ∷ 10 ∷ extra) =
        e
        ∙ ap (λ t. with_crlf (status_line is_ws proto ∷ t) ++ extra)
            (sym (append_assoc heads (last ∷ []) ([] ∷ [])))
        ∙ ap (λ t. t ++ extra) (with_crlf-append lines ([] ∷ []))
        ∙ append_assoc (with_crlf lines) (with_crlf ([] ∷ [])) extra
        ∙ unfold with_crlf in refl in
      let good = header_lines-IsGood is_ws accept ws_proto plain plain' in
      let (rs, taken_all, status, found) =
        lines_taken is_ws proto accept ws_proto token start one_word plain plain' r in
      (
        rs,
        read_rest-finished conv names conn [] start 0 (unfold cut_line in refl)
              (omega (arith, fits))
            ∙ ap (λ t. finished (take_lines conv names (suc (length t)) t start 0)) whole
            ∙ take_lines-whole conv names lines extra
                (suc (length (with_crlf lines ++ (13 ∷ 10 ∷ extra)))) start 0
                (
                  status_line-IsLine is_ws proto plain_proto,
                  All-append IsLine heads (last ∷ [])
                      (All-map IsGood IsLine (λ l g. g.0) heads good)
                      ((omega arith, plain_token), tt),
                )
                (omega arith)
            ∙ taken_all,
        status,
        found,
      )
