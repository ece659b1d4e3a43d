-- ===== src/Uplink/Shared.antt =====
-- `uplinkSecure.LookupIP` of socks/backend/backend_secure.go, as steps of the callers that look up one name
-- which is not in the cache. `mapNsWait` is what it has for the name; a caller is known by its number.
use mathlib.Core.Path.{subst}
use df.Prelude.{
  ℕ, ◌==◌, ◌≡◌, refl, sym, ap, ◌∙◌, Bool, true, false, List, [], ◌∷◌, Option, none, some,
  if◌then◌else◌, ◌↔◌, Bool-cases, inl, inr, ==_iff, ==_refl, ne→==, ◌≢◌,
}

-- Before the call, in the wait for another caller's result, and in the wait for its own. After its own
-- result, with these handlers still to be invoked; and after the return.
pub data Phase : Type 0 where
  outside waiting asking : Phase
  calling : List ℕ → List (List ℕ) → Phase
  returned : Option (List (List ℕ)) → Phase

-- `handlers` has the callers that have stored one, once a caller has made the inner map.
pub record Lookups : Type 0 where
  pub handlers : Option (List ℕ)
  pub phase : ℕ → Phase

abbrev pub set : ℕ → Phase → (ℕ → Phase) → ℕ → Phase
set i p f k = if k == i then p else f k

abbrev pub at : ℕ → Phase → Lookups → Lookups
at i p s = record s { phase = set i p s.phase }

pub data Mem (k : ℕ) : List ℕ → Type 0 where
  first : {ks : List ℕ} → Mem k (k ∷ ks)
  later : {j : ℕ} {ks : List ℕ} → Mem k ks → Mem k (j ∷ ks)

abbrev pub stored : Option (List ℕ) → List ℕ
stored none = []
stored (some ks) = ks

pub data Step (s : Lookups) : Lookups → Type 0 where
  -- `LoadOrStore` stores, or gives a map, where the caller leaves a handler: the two are one step, so no
  -- other caller deletes the map between them.
  asks_first :
      (i : ℕ)
      → s.phase i ≡ outside
      → s.handlers ≡ none
      → Step s (record (at i asking s) { handlers = some [] })
  joins :
      (i : ℕ) (ks : List ℕ)
      → s.phase i ≡ outside
      → s.handlers ≡ some ks
      → Step s (record (at i waiting s) { handlers = some (i ∷ ks) })
  -- After five seconds.
  gives_up : (i : ℕ) → s.phase i ≡ waiting → Step s (at i asking s)
  -- `Range` takes the handlers in some order.
  gets :
      (i : ℕ) (ips : List (List ℕ)) (ks : List ℕ)
      → s.phase i ≡ asking
      → ((k : ℕ) → Mem k ks ↔ Mem k (stored s.handlers))
      → Step s (at i (calling ks ips) s)
  -- A handler sends on a channel without room: it is received by a caller that waits.
  calls :
      (i k : ℕ) (ks : List ℕ) (ips : List (List ℕ))
      → s.phase i ≡ calling (k ∷ ks) ips
      → s.phase k ≡ waiting
      → Step s (at i (calling ks ips) (at k (returned (some ips)) s))
  -- The deferred `Delete`, behind the last handler, or an error.
  returns :
      (i : ℕ) (ips : List (List ℕ))
      → s.phase i ≡ calling [] ips
      → Step s (record (at i (returned (some ips)) s) { handlers = none })
  fails :
      (i : ℕ) → s.phase i ≡ asking → Step s (record (at i (returned none) s) { handlers = none })

pub data Reach (s : Lookups) : Lookups → Type 0 where
  here : Reach s s
  next : {t u : Lookups} → Reach s t → Step t u → Reach s u

-- Whether the caller will not wait for another's result any more.
abbrev is_past : Phase → Bool
is_past outside = false
is_past waiting = false
is_past asking = true
is_past (calling ks ips) = true
is_past (returned r) = true

abbrev todo_of : Phase → List ℕ
todo_of outside = []
todo_of waiting = []
todo_of asking = []
todo_of (calling ks ips) = ks
todo_of (returned r) = []

-- The caller is kept by the handler of a caller that is past its wait.
record Stuck (i j : ℕ) (f : ℕ → Phase) : Type 0 where
  todo : List ℕ
  ips : List (List ℕ)
  calls_on : f i ≡ calling todo ips
  among : Mem j todo
  past : is_past (f j) ≡ true

not_past :
    (j m : ℕ) (f : ℕ → Phase) {p : Phase}
    → is_past (f j) ≡ true
    → f m ≡ p
    → is_past p ≡ false
    → j ≢ m
not_past j m f past e out same = cc

not_both : {b : Bool} → b ≡ false → b ≡ true → ⊥
not_both off on = cc

set_same : (i : ℕ) (p : Phase) (f : ℕ → Phase) → set i p f i ≡ p
set_same i p f = rw (==_refl i) refl

set_other : (k i : ℕ) (p : Phase) (f : ℕ → Phase) → k ≢ i → set i p f k ≡ f k
set_other k i p f apart = rw (ne→== k i apart) refl

set_past :
    (j m : ℕ) (p : Phase) (f : ℕ → Phase)
    → is_past (f j) ≡ true
    → (j ≡ m → is_past p ≡ true)
    → is_past (set m p f j) ≡ true
set_past j m p f past kept = elim (Bool-cases (j == m)) [
  | inl same ↦ rw same (kept ((==_iff j m).0 same))
  | inr other ↦ rw other past
]

set-Stuck :
    {i j : ℕ} {f : ℕ → Phase} (m : ℕ) (p : Phase)
    → Stuck i j f
    → i ≢ m
    → (j ≡ m → is_past p ≡ true)
    → Stuck i j (set m p f)
set-Stuck {i} {j} {f} m p st apart kept = record {
  todo = st.todo;
  ips = st.ips;
  calls_on = set_other i m p f apart ∙ st.calls_on;
  among = st.among;
  past = set_past j m p f st.past kept;
}

Mem-later : {j k : ℕ} {ks : List ℕ} → j ≢ k → Mem j (k ∷ ks) → Mem j ks
Mem-later apart first = absurd (apart refl)
Mem-later apart (later m) = m

Mem-none : {j : ℕ} {ks : List ℕ} → ks ≡ [] → Mem j ks → ⊥
Mem-none e first = cc
Mem-none e (later m) = cc

calls-Stuck :
    (i j m k : ℕ) (ks : List ℕ) (ips : List (List ℕ)) (f : ℕ → Phase)
    → Stuck i j f
    → f m ≡ calling (k ∷ ks) ips
    → f k ≡ waiting
    → Stuck i j (set m (calling ks ips) (set k (returned (some ips)) f))
calls-Stuck i j m k ks ips f st e w =
    let busy = st.calls_on in
    let done = st.past in
    let mine : i ≢ k = λ same. cc in
    let kept : j ≢ k = not_past j k f done w refl in
    let st' = set-Stuck k (returned (some ips)) st mine (λ same. refl) in
    elim (Bool-cases (i == m)) [
      | inl alike ↦
          let same = (==_iff i m).0 alike in
          let g = set k (returned (some ips)) f in
          record {
            todo = ks;
            ips = ips;
            calls_on = ap (set m (calling ks ips) g) same ∙ set_same m (calling ks ips) g;
            among = Mem-later kept (subst (Mem j) (ap todo_of (sym busy ∙ ap f same ∙ e)) st.among);
            past = set_past j m (calling ks ips) g st'.past (λ at_m. refl);
          }
      | inr other ↦
          set-Stuck m (calling ks ips) st' (λ same. absurd (not_both other ((==_iff i m).1 same)))
            (λ same. refl)
    ]

Step-Stuck : {i j : ℕ} {s t : Lookups} → Stuck i j s.phase → Step s t → Stuck i j t.phase
Step-Stuck {i} {j} {s} st (asks_first m o h) =
    let busy = st.calls_on in set-Stuck m asking st (λ same. cc) (λ same. refl)
Step-Stuck {i} {j} {s} st (joins m ks o h) =
    let busy = st.calls_on in
    set-Stuck m waiting st (λ same. cc) (λ same. absurd (not_past j m s.phase st.past o refl same))
Step-Stuck st (gives_up m w) =
    let busy = st.calls_on in set-Stuck m asking st (λ same. cc) (λ same. refl)
Step-Stuck st (gets m ips ks a h) =
    let busy = st.calls_on in set-Stuck m (calling ks ips) st (λ same. cc) (λ same. refl)
Step-Stuck {i} {j} {s} st (calls m k ks ips e w) = calls-Stuck i j m k ks ips s.phase st e w
Step-Stuck {i} {j} {s} st (returns m ips e) =
    let busy = st.calls_on in
    set-Stuck m (returned (some ips)) st
      (λ same. Mem-none (ap todo_of (sym busy ∙ ap s.phase same ∙ e)) st.among) (λ same. refl)
Step-Stuck st (fails m a) =
    let busy = st.calls_on in set-Stuck m (returned none) st (λ same. cc) (λ same. refl)

Reach-Stuck : {i j : ℕ} {s t : Lookups} → Stuck i j s.phase → Reach s t → Stuck i j t.phase
Reach-Stuck st here = st
Reach-Stuck st (next r x) = Step-Stuck (Reach-Stuck st r) x

-- A caller `j` has waited for another's result for five seconds, and asks for itself; then a caller `i`,
-- which may be `j`, gets its own result while the handlers are still there. Both can happen; and from then
-- on `i` never returns, whatever all the callers do: the handler of `j` is not done.
pub handler_blocks :
    (s : Lookups) {u : Lookups} (i j : ℕ) (ks todo : List ℕ) (ips : List (List ℕ))
    → s.phase j ≡ waiting
    → s.handlers ≡ some ks
    → Mem j ks
    → (at j asking s).phase i ≡ asking
    → ((k : ℕ) → Mem k todo ↔ Mem k ks)
    → Reach (at i (calling todo ips) (at j asking s)) u
    → Reach s (at i (calling todo ips) (at j asking s))
      × ((left : List ℕ) × (ips' : List (List ℕ)) × (u.phase i ≡ calling left ips') × Mem j left)
handler_blocks s i j ks todo ips w h m a order r =
    let f = set j asking s.phase in
    let now_stuck : Stuck i j (set i (calling todo ips) f) = record {
      todo = todo;
      ips = ips;
      calls_on = set_same i (calling todo ips) f;
      among = (order j).1 m;
      past =
          set_past j i (calling todo ips) f (ap is_past (set_same j asking s.phase)) (λ same. refl);
    } in
    let st = Reach-Stuck now_stuck r in
    (
      next (next here (gives_up j w))
          (gets i ips todo a (λ k. subst (λ o. Mem k todo ↔ Mem k (stored o)) (sym h) (order k))),
      (st.todo, st.ips, st.calls_on, st.among),
    )
