-- ===== src/Pool/Supply/Bound.antt =====
-- How many shared clients there are.
use df.Prelude.{
  ℕ, ◌+◌, ◌≤◌, ◌<◌, ◌≡◌, inl, inr, refl, arith, Bool, true, false, Bool-cases, ◌==◌, ◌&&◌, List, [],
  ◌∷◌, length, bytes_eq, ltb, ltb→lt,
}
use df.Io.{Result, ok, err, panic}
use df.SyncMap.{store, delete}
use df.Conf.{Values}
use df.H1.Client.{Client, new_client}
use df.Pool.Client.{SharedClient}
use df.Pool.Supply.{
  Table, new_shared_client, count, added, try_add_new_shared_client, Change, adds, exits, kept,
  change,
}

length-store :
    (id : List ℕ) (sc : SharedClient) (table : Table)
    → (length (store id sc table) ≤ length table + 1) × (0 < length (store id sc table))
unfolding store
length-store id sc [] = (omega arith, omega arith)
length-store id sc ((j, w) ∷ table) = elim (Bool-cases (bytes_eq j id)) [
  | inl same ↦ rw same (omega arith, omega arith)
  | inr other ↦ rw other (omega (arith, (length-store id sc table).0), omega arith)
]

length-delete : (id : List ℕ) (table : Table) → length (delete id table) ≤ length table
unfolding delete
length-delete id [] = omega arith
length-delete id ((j, w) ∷ table) = elim (Bool-cases (bytes_eq j id)) [
  | inl same ↦ rw same (omega arith)
  | inr other ↦ rw other (omega (arith, length-delete id table))
]

count-length : (now : ℕ) (table : Table) → (count now table).0 ≡ length table
unfolding count
count-length now [] = refl
count-length now (e ∷ table) = omega (arith, count-length now table)

added_bound :
    (now : ℕ) (id : List ℕ) (table : Table) (r : Result Client)
    → length table < 5
    → length (kept table (added now id table r)) ≤ 5
added_bound now id table (ok cl) h =
    omega (arith, (length-store id (new_shared_client now id) table).0)
added_bound now id table (err e) h = omega arith
added_bound now id table panic h = omega arith

both_true : (b c : Bool) → (b && c) ≡ true → b ≡ true
both_true true c h = refl
both_true false c h = cc

change-bound :
    (cfg : Values) (c : Change) (table : Table) → length table ≤ 5 → length (change cfg c table) ≤ 5
unfolding change try_add_new_shared_client
change-bound cfg (exits id) table h = omega (arith, length-delete id table)
change-bound cfg (adds now id) table h =
    let few = ltb (count now table).0 5 in
    let none_healthy = (count now table).1 == 0 in
    elim (Bool-cases (few && none_healthy)) [
      | inl more ↦
          let under = ltb→lt (count now table).0 5 (both_true few none_healthy more) in
          rw more (
            added_bound now id table (new_client cfg id)
              (omega (arith, under, count-length now table)))
      | inr enough ↦ rw enough h
    ]

-- One change after the other.
unfoldable pub changes : Values → List Change → Table → Table
changes cfg [] table = table
changes cfg (c ∷ cs) table = changes cfg cs (change cfg c table)

-- However many clients ask for a transport and however shared ones come and go, there are never more
-- than five shared clients.
pub changes_bound :
    (cfg : Values) (cs : List Change) (table : Table)
    → length table ≤ 5
    → length (changes cfg cs table) ≤ 5
unfolding changes
changes_bound cfg [] table h = h
changes_bound cfg (c ∷ cs) table h =
    changes_bound cfg cs (change cfg c table) (change-bound cfg c table h)
