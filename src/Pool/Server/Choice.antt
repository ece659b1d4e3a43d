-- ===== src/Pool/Server/Choice.antt =====
-- The reply channel that an instance uses.
use df.Prelude.{
  ℕ, ◌≤◌, ◌<◌, ◌≡◌, ◌==◌, ◌⊎◌, inl, inr, refl, arith, true, false, Bool-cases, ◌||◌, List, [], ◌∷◌,
  Option, none, some, All, ltb, bytes_eq,
}
use df.Pool.Server.{Instance, ReplyChannel, reply_channel, get_reply_channel}

abbrev pub Occurs : ReplyChannel → List ReplyChannel → Type 0
Occurs ch [] = ⊥
Occurs ch (c ∷ cs) = (ch ≡ c) ⊎ Occurs ch cs

-- Of the channels with the prefix, none is newer than the time.
abbrev pub Bounds : List ℕ → ℕ → List ReplyChannel → Type 0
Bounds prefix time chs = All (λ c. bytes_eq c.trunk_prefix prefix ≡ true → c.created_at ≤ time) chs

abbrev pub IsDated : ReplyChannel → Type 0
IsDated c = 0 < c.created_at

-- The newest channel with the prefix, or none where there is no channel with it.
pub data Newest (prefix : List ℕ) (chs : List ReplyChannel) (r : Option ReplyChannel) : Type 0 where
  absent : r ≡ none → All (λ c. bytes_eq c.trunk_prefix prefix ≡ false) chs → Newest prefix chs r
  newest :
      (ch : ReplyChannel)
      → r ≡ some ch
      → Occurs ch chs
      → bytes_eq ch.trunk_prefix prefix ≡ true
      → Bounds prefix ch.created_at chs
      → Newest prefix chs r

-- What the loop makes of a channel found before.
record Improves (prefix : List ℕ) (b : ReplyChannel) (chs : List ReplyChannel)
    (r : Option ReplyChannel) : Type 0 where
  ch : ReplyChannel
  result : r ≡ some ch
  source : (ch ≡ b) ⊎ Occurs ch chs
  matches : bytes_eq ch.trunk_prefix prefix ≡ true
  newer : b.created_at ≤ ch.created_at
  bound : Bounds prefix ch.created_at chs

skip :
    (b c : ReplyChannel) (cs : List ReplyChannel) {ch : ReplyChannel}
    → (ch ≡ b) ⊎ Occurs ch cs
    → (ch ≡ b) ⊎ Occurs ch (c ∷ cs)
skip b c cs (inl e) = inl e
skip b c cs (inr o) = inr (inr o)

reply_channel-some :
    (prefix : List ℕ) (chs : List ReplyChannel) (b : ReplyChannel)
    → 0 < b.created_at
    → bytes_eq b.trunk_prefix prefix ≡ true
    → All IsDated chs
    → Improves prefix b chs (reply_channel prefix chs b.created_at (some b))
unfolding reply_channel
reply_channel-some prefix [] b h m d = record {
  ch = b;
  result = refl;
  source = inl refl;
  matches = m;
  newer = omega arith;
  bound = tt;
}
reply_channel-some prefix (c ∷ cs) b h m (dc, ds) =
    elim (Bool-cases (bytes_eq c.trunk_prefix prefix)) [
      | inr other ↦
          let i = reply_channel-some prefix cs b h m ds in
          rw other (record {
            ch = i.ch;
            result = i.result;
            source = skip b c cs i.source;
            matches = i.matches;
            newer = i.newer;
            bound = (λ e. cc, i.bound);
          })
      | inl match ↦ elim (Bool-cases (b.created_at == 0 || ltb b.created_at c.created_at)) [
        | inl later ↦
            let i = reply_channel-some prefix cs c dc match ds in
            rw (match, later)
              (record {
                ch = i.ch;
                result = i.result;
                source = inr i.source;
                matches = i.matches;
                newer = ground (arith, i.newer);
                bound = (λ e. i.newer, i.bound);
              })
        | inr earlier ↦
            let i = reply_channel-some prefix cs b h m ds in
            rw (match, earlier)
              (record {
                ch = i.ch;
                result = i.result;
                source = skip b c cs i.source;
                matches = i.matches;
                newer = i.newer;
                bound = (λ e. ground (arith, i.newer), i.bound);
              })
      ]
    ]

passed_over :
    (prefix : List ℕ) (c : ReplyChannel) (cs : List ReplyChannel) (r : Option ReplyChannel)
    → bytes_eq c.trunk_prefix prefix ≡ false
    → Newest prefix cs r
    → Newest prefix (c ∷ cs) r
passed_over prefix c cs r other (absent e none_match) = absent e (other, none_match)
passed_over prefix c cs r other (newest ch e o m bound) = newest ch e (inr o) m (λ match. cc, bound)

reply_channel-none :
    (prefix : List ℕ) (chs : List ReplyChannel)
    → All IsDated chs
    → Newest prefix chs (reply_channel prefix chs 0 none)
unfolding reply_channel
reply_channel-none prefix [] d = absent refl tt
reply_channel-none prefix (c ∷ cs) (dc, ds) = elim (Bool-cases (bytes_eq c.trunk_prefix prefix)) [
  | inl match ↦
      let i = reply_channel-some prefix cs c dc match ds in
      rw match (newest i.ch i.result i.source i.matches (λ e. i.newer, i.bound))
  | inr other ↦ rw other (passed_over prefix c cs _ other (reply_channel-none prefix cs ds))
]

-- `getReplyChannel` finds the newest of the channels with the instance's prefix, and none only where
-- no channel has it. The channels have been created after the epoch.
pub get_reply_channel-Newest :
    (t : Instance) (chs : List ReplyChannel)
    → All IsDated chs
    → Newest t.trunk_prefix chs (get_reply_channel t chs)
unfolding get_reply_channel
get_reply_channel-Newest t chs d = reply_channel-none t.trunk_prefix chs d

-- There is a channel with the prefix, so the newest is found.
Occurs-unmatched :
    (prefix : List ℕ) (chs : List ReplyChannel) (c : ReplyChannel)
    → Occurs c chs
    → bytes_eq c.trunk_prefix prefix ≡ true
    → All (λ d. bytes_eq d.trunk_prefix prefix ≡ false) chs
    → ⊥
Occurs-unmatched prefix [] c o m h = o
Occurs-unmatched prefix (d ∷ ds) c (inl same) m (h, hs) = cc
Occurs-unmatched prefix (d ∷ ds) c (inr o) m (h, hs) = Occurs-unmatched prefix ds c o m hs

-- The newest of the channels with the prefix.
pub record IsNewest (prefix : List ℕ) (chs : List ReplyChannel) (ch : ReplyChannel) : Type 0 where
  pub is_there : Occurs ch chs
  pub of_trunk : bytes_eq ch.trunk_prefix prefix ≡ true
  pub no_newer : Bounds prefix ch.created_at chs

pub Newest-some :
    (prefix : List ℕ) (chs : List ReplyChannel) (c : ReplyChannel) {r : Option ReplyChannel}
    → Occurs c chs
    → bytes_eq c.trunk_prefix prefix ≡ true
    → Newest prefix chs r
    → (ch : ReplyChannel) × (r ≡ some ch) × IsNewest prefix chs ch
Newest-some prefix chs c o m (absent e h) = absurd (Occurs-unmatched prefix chs c o m h)
Newest-some prefix chs c o m (newest ch e there of_trunk bound) =
    (ch, e, record { is_there = there; of_trunk = of_trunk; no_newer = bound })
